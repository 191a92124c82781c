-- ===== src/Proxy/Setup.antt =====
-- `NewProxy` of proxy.go with what it calls: which parts a proxy gets for its options, and how its
-- requests leave. The libraries that make dialers, transports and servers are parameters. Where the
-- source wraps an error in another text, the error is its cause here.
pub mod Wiring
use proxify.Common.{
  ◌≡◌, ℤ, pos, negsuc, Bool, true, false, Option, none, some, List, [], ◌∷◌, ◌++◌, is_empty, leb,
  if◌then◌else◌,
}
use proxify.Go.Outcome.{Outcome, ok, err, panic, ◌>>=◌}
use proxify.Go.Strings.{Bytes, codes, before, join}
use proxify.Go.Maps.{Map, lookup, insert}
use proxify.Go.Http.{Request, Response}
use proxify.Types.{Verbosity, silent, default_level, verbose, very_verbose, level}
use proxify.Logger.Env.{Logger, OptionsLogger, ElasticOptions, KafkaOptions}
use proxify.Logger.Setup.{Constructors, new_logger}
use proxify.Proxy.Env.{Callback}
use proxify.Proxy.Dns.{dns_mapping}

-- `Options`, of which Proxy.Env holds what the modifiers read.
pub record ProxyOptions : Type 0 where
  pub dump_request : Bool
  pub dump_response : Bool
  pub output_jsonl : Bool
  pub max_size : ℤ
  pub verbosity : Verbosity
  pub cert_cache_size : ℤ
  pub directory : Bytes
  pub listen_addr_http : Bytes
  pub listen_addr_socks5 : Bytes
  pub output_directory : Bytes
  pub output_file : Bytes
  pub output_format : Bytes
  pub request_dsl : List Bytes
  pub response_dsl : List Bytes
  pub upstream_http_proxies : List Bytes
  pub upstream_sock5_proxies : List Bytes
  pub listen_dns_addr : Bytes
  pub dns_mapping_text : Bytes
  pub dns_fallback_resolver : Bytes
  pub request_match_replace_dsl : List Bytes
  pub response_match_replace_dsl : List Bytes
  pub on_request_callback : Option (Callback Request)
  pub on_response_callback : Option (Callback Response)
  pub deny : List Bytes
  pub allow : List Bytes
  pub pass_through : List Bytes
  pub upstream_proxy_requests_number : ℤ
  pub elastic : Option ElasticOptions
  pub kafka : Option KafkaOptions

-- The levels of martian's log.
pub data MartianLevel : Type 0 where
  level_silent level_error level_info level_debug : MartianLevel

unfoldable pub martian_level : Verbosity → MartianLevel
martian_level silent = level_silent
martian_level verbose = level_info
martian_level very_verbose = level_debug
martian_level default_level = level_error

-- What `tinydns.New` is given; a record has one address.
pub record DnsOptions : Type 0 where
  pub listen_address : Bytes
  pub net : Bytes
  pub upstream_servers : List Bytes
  pub dns_records : Map Bytes

-- The options of `fastdialer` that are set; the others are its defaults.
pub record DialerOptions : Type 0 where
  pub enable_fallback : Bool
  pub deny : List Bytes
  pub allow : List Bytes
  pub base_resolvers : List Bytes

-- The constructors of other packages: `tinydns.New`, `fastdialer.NewDialer`,
-- `rbtransport.NewWithOptions`, `proxy.SOCKS5` over TCP, and `os.Getwd`.
pub record SetupLib (W Dns Dialer Rotation Socks : Type 0) : Type 1 where
  pub constructors : Constructors W
  pub new_tinydns : DnsOptions → Outcome Dns
  pub default_resolvers : List Bytes
  pub new_dialer : DialerOptions → Outcome Dialer
  pub new_round_transport : ℤ → List Bytes → Outcome Rotation
  pub new_socks5 : Bytes → Outcome Socks
  pub getwd : Outcome Bytes

-- How requests leave: without a proxy, through the next HTTP proxy of `rbhttp`, or by the dialer of
-- the next proxy of `rbsocks5`.
pub data Route (Socks : Type 0) : Type 0 where
  direct : Route Socks
  http_proxies : Route Socks
  socks5_proxies : Map Socks → Route Socks

-- The fields of `http.Transport` and of its `tls.Config` that are set.
pub record Transport (Socks : Type 0) : Type 0 where
  pub max_idle_conns_per_host : ℤ
  pub max_idle_conns : ℤ
  pub max_conns_per_host : ℤ
  pub min_version_tls10 : Bool
  pub insecure_skip_verify : Bool
  pub route : Route Socks

-- The SOCKS5 server, and whether its log is discarded.
pub record SocksServer : Type 0 where
  pub is_silent : Bool

pub record Proxy (W Dns Dialer Rotation Socks : Type 0) : Type 0 where
  pub martian_log : MartianLevel
  pub options : ProxyOptions
  pub logger : Logger W
  pub dialer : Dialer
  pub tinydns : Option Dns
  pub rbhttp : Option Rotation
  pub rbsocks5 : Option Rotation
  pub static_dir : Bytes
  pub transport : Transport Socks
  pub socks5proxy : Option SocksServer

unfoldable pub logger_options : ProxyOptions → OptionsLogger
logger_options o = record {
  verbosity = o.verbosity;
  output_folder = o.output_directory;
  output_file = o.output_file;
  output_format = o.output_format;
  dump_request = o.dump_request;
  dump_response = o.dump_response;
  max_size = o.max_size;
  elastic = o.elastic;
  kafka = o.kafka;
}

unfoldable pub dns_options : ProxyOptions → DnsOptions
dns_options o = record {
  listen_address = o.listen_dns_addr;
  net = codes "udp";
  upstream_servers = o.dns_fallback_resolver ∷ [];
  dns_records = dns_mapping o.dns_mapping_text;
}

-- A transport whose TLS configuration only skips the verification.
abbrev plain_transport : {S : Type 0} → Route S → Transport S
plain_transport route = record {
  max_idle_conns_per_host = pos 0;
  max_idle_conns = pos 0;
  max_conns_per_host = pos 0;
  min_version_tls10 = false;
  insecure_skip_verify = true;
  route = route;
}

-- The folder of the pages, from the working directory.
unfoldable pub static_dir : Bytes → Bytes
static_dir cwd = join (before (codes "cmd") cwd ∷ codes "static" ∷ []) (codes "/")

module _ {W Dns Dialer Rotation Socks : Type 0} (lib : SetupLib W Dns Dialer Rotation Socks) where
  -- A dialer for each SOCKS5 proxy.
  unfoldable pub socks5_dialers : List Bytes → Map Socks → Outcome (Map Socks)
  socks5_dialers [] m = ok m
  socks5_dialers (p ∷ ps) m = lib.new_socks5 p >>= λ dialer. socks5_dialers ps (insert p dialer m)

  -- `getRoundTripper`
  unfoldable pub get_round_tripper : ProxyOptions → Outcome (Transport Socks)
  get_round_tripper o =
      if is_empty o.upstream_http_proxies
      then (if is_empty o.upstream_sock5_proxies
          then ok (record (plain_transport direct) {
            max_idle_conns_per_host = negsuc 0;
            min_version_tls10 = true;
          })
          else socks5_dialers o.upstream_sock5_proxies [] >>= λ m.
              ok (plain_transport (socks5_proxies m)))
      else ok (plain_transport http_proxies)

  -- The server of the DNS mapping, if there is an address for it.
  unfoldable pub new_dns : ProxyOptions → Outcome (Option Dns)
  new_dns o =
      if is_empty o.listen_dns_addr
      then ok none
      else lib.new_tinydns (dns_options o) >>= λ dns. ok (some dns)

  unfoldable pub dialer_options : ProxyOptions → DialerOptions
  dialer_options o = record {
    enable_fallback = true;
    deny = o.deny;
    allow = o.allow;
    base_resolvers =
        if is_empty o.listen_dns_addr
        then lib.default_resolvers
        else (codes "127.0.0.1" ++ o.listen_dns_addr) ∷ [];
  }

  -- The rotation over upstream proxies, if there are any.
  unfoldable pub new_rotation : ℤ → List Bytes → Outcome (Option Rotation)
  new_rotation n [] = ok none
  new_rotation n (p ∷ ps) = lib.new_round_transport n (p ∷ ps) >>= λ rotation. ok (some rotation)

  -- `NewProxy`; of `setupHTTPProxy` only the transport may fail.
  unfoldable pub new_proxy : ProxyOptions → Outcome (Proxy W Dns Dialer Rotation Socks)
  new_proxy o = do
    logger ← new_logger lib.constructors (logger_options o)
    tdns ← new_dns o
    dialer ← lib.new_dialer (dialer_options o)
    rbhttp ← new_rotation o.upstream_proxy_requests_number o.upstream_http_proxies
    rbsocks5 ← new_rotation o.upstream_proxy_requests_number o.upstream_sock5_proxies
    cwd ← lib.getwd
    transport ← get_round_tripper o
    ok (record {
      martian_log = martian_level o.verbosity;
      options = o;
      logger = logger;
      dialer = dialer;
      tinydns = tdns;
      rbhttp = rbhttp;
      rbsocks5 = rbsocks5;
      static_dir = static_dir cwd;
      transport = transport;
      socks5proxy =
          if is_empty o.listen_addr_socks5
          then none
          else some (record { is_silent = leb (level o.verbosity) (level silent) });
    })
