-- ===== src/Tests/Starting.antt =====
-- Tests of internal/runner and of the setup of proxy.go, from a home directory without files.
use proxify.Common.{◌≡◌, ◌≢◌, pos, refl, true, false, none, some, List, [], ◌∷◌, if◌then◌else◌}
use proxify.Go.Outcome.{Outcome, ok, err}
use proxify.Go.Strings.{
  Bytes, codes, join, str_eq, before, has_prefix, separated, replace_text, replace_from,
}
use proxify.Go.Maps.{lookup, insert}
use proxify.Go.Disk.{Disk, file_exists, create, write_file, append_file, contents, read_file}
use proxify.Proxy.Setup.{
  ProxyOptions, SetupLib, Proxy, new_proxy, new_dns, new_rotation, get_round_tripper,
  socks5_dialers, level_silent, logger_options, socks5_proxies, static_dir, martian_level,
}
use proxify.Proxy.Serving.{ServeLib, Running, http_server, socks5_server}
use proxify.Logger.Setup.{new_logger, new_output_file_writer}
use proxify.Types.{default_level}
use proxify.Proxy.Setup.Wiring.{IsWired, new_proxy-IsWired}
use proxify.Runner.Env.{RunnerOptions, RunnerLib, Flags, returned, exited}
use proxify.Runner.Flags.{
  default_flags, no_kafka, no_elastic, create_logger_config_if_not_exists, parse_logger_config,
  parse_options, read_flags, read_flags_config, merge_given, read_exports, configure_verbosity,
  finish_options, set_output,
}
use proxify.Runner.Exports.{no_exports, export_config-made}
use proxify.Runner.Starting.{
  Runner, proxy_options, new_runner, run_runner, validate_expressions, validate_group,
}
use proxify.Certs.{load_certs, generate_certificate, save_pair, save_to_file}
use proxify.Proxy.Serving.{run, run_socks5, open_tunnel}
use proxify.Runner.Ready.{IsReady, parse_options-IsReady}
use proxify.Runner.Main.{serving, ended, main, standing, standing_of}
use proxify.Runner.Served.{IsServed, main-IsServed, run_runner-refuses}
use proxify.Tests.Certifying.{cert_lib}
use proxify.Tests.Configuring.{constructors, quiet, silent_writer}
use proxify.Tests.Fixtures.{empty_disk}

abbrev runner_lib : RunnerLib
runner_lib = record {
  user_home_dir = ok (codes "/h");
  join_path = λ parts. join parts (codes "/");
  parse = λ f d. (returned (ok f), d);
  merge_config_file = λ path d f. (ok tt, f);
  config_file_path = ok (codes "/c");
  mkdir_all = λ path d. d;
  copy_file = λ from to d. (ok tt, d);
  encode_config = λ c. ok (codes "k");
  decode_config = λ text. ok no_exports;
  expand_env = λ text. text;
}

abbrev options : RunnerOptions
options = (default_flags runner_lib (codes "/h")).options

export_config-made_example :
    let (made, d') = create_logger_config_if_not_exists runner_lib options empty_disk in
    (made ≡ ok tt)
    × (parse_logger_config runner_lib options d'
        ≡ ok (record options { kafka = no_kafka; elastic = no_elastic }))
    × (create_logger_config_if_not_exists runner_lib options d' ≡ (ok tt, d'))
    × ((path : Bytes)
        → path ≢ options.logger_config
        → lookup path d'.files ≡ lookup path empty_disk.files)
unfolding file_exists lookup
export_config-made_example =
    export_config-made runner_lib options (codes "k") empty_disk refl refl refl refl refl

-- Every part can be made.
abbrev setup_lib : SetupLib Disk (Unit {0}) (Unit {0}) (List Bytes) Bytes
setup_lib = record {
  constructors = constructors;
  new_tinydns = λ o. ok tt;
  default_resolvers = [];
  new_dialer = λ o. ok tt;
  new_round_transport = λ n proxies. ok proxies;
  new_socks5 = λ p. ok p;
  getwd = ok (codes "/h/cmd/proxify");
}

-- Two SOCKS5 proxies upstream, and a DNS server.
abbrev upstream : ProxyOptions
upstream = record (proxy_options options) {
  upstream_sock5_proxies = codes "a:1" ∷ codes "b:2" ∷ [];
  listen_dns_addr = codes ":53";
}

abbrev upstream_proxy : Proxy Disk (Unit {0}) (Unit {0}) (List Bytes) Bytes
upstream_proxy = record {
  martian_log = level_silent;
  options = upstream;
  logger = record {
    options = logger_options upstream;
    stores = quiet ∷ [];
    s_writer = some silent_writer;
  };
  dialer = tt;
  tinydns = some tt;
  rbhttp = none;
  rbsocks5 = some upstream.upstream_sock5_proxies;
  static_dir = codes "/h//static";
  transport = record {
    max_idle_conns_per_host = pos 0;
    max_idle_conns = pos 0;
    max_conns_per_host = pos 0;
    min_version_tls10 = false;
    insecure_skip_verify = true;
    route = socks5_proxies ((codes "a:1", codes "a:1") ∷ (codes "b:2", codes "b:2") ∷ []);
  };
  socks5proxy = some (record { is_silent = true });
}

upstream_proxy-made : new_proxy setup_lib upstream ≡ ok upstream_proxy
unfolding new_proxy new_logger new_output_file_writer new_dns new_rotation get_round_tripper
    socks5_dialers insert str_eq codes static_dir martian_level before join has_prefix separated
    logger_options
upstream_proxy-made = refl

new_proxy-IsWired_example : IsWired setup_lib upstream upstream_proxy
new_proxy-IsWired_example = new_proxy-IsWired setup_lib upstream upstream_proxy upstream_proxy-made

-- Nothing is wrong with an expression but "(".
compile : Bytes → Outcome (Unit {0})
unfolding codes
compile x = if str_eq x (codes "(") then err (codes "bad") else ok tt

abbrev serve_lib : ServeLib Bytes
serve_lib = record {
  listen = λ addr. ok addr;
  split_host_port = λ addr. ok (addr, addr);
  parse_port = λ port. ok 8888;
  new_super_proxy = λ host port. ok host;
}

abbrev ready : RunnerOptions
ready = record options { verbosity = default_level; output_jsonl = true }

abbrev running : Running Bytes
running = record {
  servers = http_server (codes "127.0.0.1:8888") ∷ socks5_server (codes "127.0.0.1:10080") ∷ [];
  listen_addr = codes "127.0.0.1:8888";
  socks5tunnel = some (codes "127.0.0.1:8888");
}

first_options :
    parse_options runner_lib empty_disk
    ≡ (returned (ok ready), (parse_options runner_lib empty_disk).1)
unfolding parse_options read_flags read_flags_config merge_given read_exports
    create_logger_config_if_not_exists parse_logger_config configure_verbosity finish_options
    set_output file_exists lookup read_file create append_file contents insert str_eq codes join
    separated has_prefix replace_text replace_from
first_options = refl

parse_options-IsReady_example :
    (f : Flags) × (d' : Disk) × (read_flags runner_lib empty_disk ≡ (returned (ok f), d'))
    × IsReady runner_lib f ready (parse_options runner_lib empty_disk).1
parse_options-IsReady_example =
    parse_options-IsReady runner_lib empty_disk (parse_options runner_lib empty_disk).1 ready
      first_options

first_start :
    main runner_lib cert_lib setup_lib compile serve_lib empty_disk
    ≡ (serving running, (main runner_lib cert_lib setup_lib compile serve_lib empty_disk).1)
unfolding parse_options read_flags read_flags_config merge_given read_exports
    create_logger_config_if_not_exists parse_logger_config configure_verbosity finish_options
    set_output file_exists lookup read_file create write_file append_file contents insert str_eq
    codes join separated has_prefix replace_text replace_from before main standing_of standing
    new_runner run_runner validate_expressions validate_group run run_socks5 open_tunnel load_certs
    generate_certificate save_pair save_to_file new_proxy new_logger new_output_file_writer new_dns
    new_rotation get_round_tripper logger_options
first_start = refl

main-IsServed_example :
    (o : RunnerOptions) × (f : Flags) × (d₀ d' : Disk) × (read_flags runner_lib empty_disk
      ≡ (returned (ok f), d₀))
    × (parse_options runner_lib empty_disk ≡ (returned (ok o), d'))
    × IsServed runner_lib cert_lib setup_lib compile serve_lib o f d' running
main-IsServed_example =
    main-IsServed runner_lib cert_lib setup_lib compile serve_lib empty_disk
      (main runner_lib cert_lib setup_lib compile serve_lib empty_disk).1 running first_start

abbrev refused : Runner Disk (Unit {0}) (Unit {0}) (List Bytes) Bytes
refused = record {
  options = record ready {
    request_dsl = codes "t" ∷ [];
    response_match_replace_dsl = codes "(" ∷ [];
  };
  proxy = upstream_proxy;
}

run_runner-refuses_example : run_runner compile serve_lib refused ≡ (err (codes "bad"), none)
unfolding compile str_eq codes
run_runner-refuses_example =
    run_runner-refuses compile serve_lib refused (codes "(") (codes "bad") (codes "t" ∷ []) [] refl
      (refl, tt) refl

-- A filter that does not compile ends the program with status 1, behind the configuration files.
abbrev bad_lib : RunnerLib
bad_lib = record runner_lib {
  parse = λ f d.
      (returned (ok (record f { options = record f.options { request_dsl = codes "(" ∷ [] } })), d);
}

bad_filter : (main bad_lib cert_lib setup_lib compile serve_lib empty_disk).0 ≡ ended 1
unfolding parse_options read_flags read_flags_config merge_given read_exports
    create_logger_config_if_not_exists parse_logger_config configure_verbosity finish_options
    set_output file_exists lookup read_file create write_file append_file contents insert str_eq
    codes join separated has_prefix replace_text replace_from before main standing_of standing
    new_runner run_runner validate_expressions validate_group run run_socks5 open_tunnel load_certs
    generate_certificate save_pair save_to_file new_proxy new_logger new_output_file_writer new_dns
    new_rotation get_round_tripper logger_options compile
bad_filter = refl

-- Silent and verbose exclude each other.
abbrev torn_lib : RunnerLib
torn_lib = record runner_lib {
  parse = λ f d. (returned (ok (record f { silent = true; verbose = true })), d);
}

torn : (parse_options torn_lib empty_disk).0 ≡ exited 1
unfolding parse_options read_flags read_flags_config merge_given read_exports
    create_logger_config_if_not_exists parse_logger_config configure_verbosity finish_options
    set_output file_exists lookup read_file create append_file contents insert str_eq codes join
    separated has_prefix
torn = refl
