-- ===== src/Runner/Flags.antt =====
-- `ParseOptions` of internal/runner/options.go: the defaults of the flags, the configuration files,
-- and the options that come of them. What is printed is left out.
use proxify.Common.{pos, true, false, not, ◌&&◌, ◌||◌, none, some, [], ◌∷◌, is_empty, if◌then◌else◌}
use proxify.Go.Outcome.{Outcome, ok, err, panic}
use proxify.Go.Strings.{Bytes, codes, str_eq, replace_text}
use proxify.Go.Disk.{Disk, file_exists, read_file, append_file, create}
use proxify.Types.{silent, default_level, verbose, very_verbose}
use proxify.Logger.Env.{ElasticOptions, KafkaOptions}
use proxify.Runner.Env.{
  RunnerOptions, Flags, RunnerLib, returned, exited, Start, ◌>>=◌, call, on_disk,
}

abbrev pub no_elastic : ElasticOptions
no_elastic = record {
  addr = [];
  ssl = false;
  ssl_verification = false;
  username = [];
  password = [];
  index_name = [];
}

abbrev pub no_kafka : KafkaOptions
no_kafka = record { addr = []; topic = [] }

module _ (lib : RunnerLib) where
  -- The flags before the command line is read, for a home directory.
  abbrev pub default_flags : Bytes → Flags
  default_flags home = record {
    options = record {
      output_directory = codes "proxify_logs";
      output_file = codes "proxify_logs.jsonl";
      output_format = codes "jsonl";
      logger_config =
          lib.join_path
            (home ∷ codes ".config" ∷ codes "proxify" ∷ codes "export-config.yaml" ∷ []);
      config_dir = lib.join_path (home ∷ codes ".config" ∷ codes "proxify" ∷ []);
      cert_cache_size = pos 256;
      verbosity = silent;
      version = false;
      listen_addr_http = codes "127.0.0.1:8888";
      listen_addr_socks5 = codes "127.0.0.1:10080";
      listen_dns_addr = [];
      dns_mapping = [];
      dns_fallback_resolver = [];
      no_color = false;
      request_dsl = [];
      request_match_replace_dsl = [];
      response_dsl = [];
      response_match_replace_dsl = [];
      upstream_http_proxies = [];
      upstream_socks5_proxies = [];
      upstream_proxy_requests_number = pos 1;
      dump_request = false;
      dump_response = false;
      out_ca_file = [];
      deny = [];
      allow = [];
      elastic = no_elastic;
      kafka = no_kafka;
      pass_through = [];
      max_size = pos 9_223_372_036_854_775_807;
      disable_update_check = false;
      output_jsonl = false;
    };
    cfg_file = [];
    silent = false;
    verbose = false;
    very_verbose = false;
  }

  -- `readFlagsConfig`: no failure of it is one of the program. A file that it copies is not merged.
  unfoldable pub read_flags_config : Flags → Start Flags
  read_flags_config f d = elim lib.config_file_path [
    | panic ↦ (returned panic, d)
    | err e ↦ (returned (ok f), d)
    | ok default_file ↦
        let cfg_file = lib.join_path (f.options.config_dir ∷ codes "config.yaml" ∷ []) in
        if not (file_exists cfg_file d)
        then (if not (file_exists default_file d)
            then (returned (ok f), d)
            else let (copied, d') = lib.copy_file default_file cfg_file d in
              (
                elim copied [
                  | panic ↦ returned panic
                  | err e ↦ returned (ok f)
                  | ok done ↦ returned (ok f)
                ],
                d',
              ))
        else let (merged, f') = lib.merge_config_file cfg_file d f in
          (
            elim merged [
              | panic ↦ returned panic
              | err e ↦ returned (ok f')
              | ok done ↦ returned (ok f')
            ],
            d,
          )
  ]

  -- The file of the flag `-config`, if it is given, must be there, and be one that can be merged.
  unfoldable pub merge_given : Flags → Start Flags
  merge_given f d =
      if is_empty f.cfg_file
      then (returned (ok f), d)
      else if not (file_exists f.cfg_file d)
      then (exited 1, d)
      else let (merged, f') = lib.merge_config_file f.cfg_file d f in
        (elim merged [ panic ↦ returned panic | err e ↦ exited 1 | ok done ↦ returned (ok f') ], d)

  -- `createLoggerConfigIfNotExists`: an encoder that fails leaves an empty file.
  unfoldable pub create_logger_config_if_not_exists :
      RunnerOptions → Disk → Outcome (Unit {0}) × Disk
  create_logger_config_if_not_exists o d =
      if file_exists o.logger_config d
      then (ok tt, d)
      else let (created, d') = create o.logger_config d in
        elim created [
          | panic ↦ (panic, d')
          | err e ↦ (err (codes "could not create config file"), d')
          | ok done ↦ elim (lib.encode_config (record { elastic = no_elastic; kafka = no_kafka })) [
            | panic ↦ (panic, d')
            | err e ↦ (err e, d')
            | ok text ↦ elim (d.breaks o.logger_config) [
              | some e ↦ (err e, d')
              | none ↦ (ok tt, append_file o.logger_config text d')
            ]
          ]
        ]

  -- `parseLoggerConfig`
  unfoldable pub parse_logger_config : RunnerOptions → Disk → Outcome RunnerOptions
  parse_logger_config o d = elim (read_file o.logger_config d) [
    | panic ↦ panic
    | err e ↦ err e
    | ok text ↦ elim (lib.decode_config (lib.expand_env text)) [
      | panic ↦ panic
      | err e ↦ err e
      | ok config ↦ ok (record o { kafka = config.kafka; elastic = config.elastic })
    ]
  ]

-- `configureVerbosity`
unfoldable pub configure_verbosity : Flags → RunnerOptions → Start RunnerOptions
configure_verbosity f o d = if f.silent && (f.verbose || f.very_verbose) then (exited 1, d) else (
  returned (
      ok (record o {
        verbosity =
            if f.silent
            then silent
            else if f.very_verbose
            then very_verbose
            else if f.verbose
            then verbose
            else default_level;
      })),
  d,
)

-- The output of the end of `ParseOptions`.
unfoldable pub set_output : RunnerOptions → RunnerOptions
set_output o =
    let file = if is_empty o.output_file then codes "proxify_logs.jsonl" else o.output_file in
    record o {
      output_jsonl = true;
      output_file =
          if str_eq o.output_format (codes "yaml")
          then replace_text (codes "jsonl") (codes "yaml") file
          else file;
    }

-- `-version` ends the program.
unfoldable pub finish_options : RunnerOptions → Start RunnerOptions
finish_options o d = if o.version then (exited 0, d) else (returned (ok (set_output o)), d)

-- The first part of `ParseOptions`: the flags, with the configuration files merged.
unfoldable pub read_flags : RunnerLib → Start Flags
read_flags lib = do
  home ← call lib.user_home_dir
  parsed ← lib.parse (default_flags lib home)
  merged ←
      if is_empty parsed.options.config_dir
      then call (ok parsed)
      else (λ d. read_flags_config lib parsed (lib.mkdir_all parsed.options.config_dir d))
  merge_given lib merged

-- The second: the export configuration.
unfoldable pub read_exports : RunnerLib → RunnerOptions → Start RunnerOptions
read_exports lib o = do
  done ← on_disk (create_logger_config_if_not_exists lib o)
  (λ d. (returned (parse_logger_config lib o d), d))

-- `ParseOptions`
unfoldable pub parse_options : RunnerLib → Start RunnerOptions
parse_options lib = do
  given ← read_flags lib
  exporting ← read_exports lib given.options
  ready ← configure_verbosity given exporting
  finish_options ready
