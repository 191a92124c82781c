-- ===== src/Runner/Env.antt =====
-- `Options` of internal/runner/options.go, and how the program may end while it starts.
use proxify.Common.{ℤ, ℕ, Bool, List}
use proxify.Go.Outcome.{Outcome, ok, err, panic}
use proxify.Go.Strings.{Bytes}
use proxify.Go.Disk.{Disk}
use proxify.Types.{Verbosity}
use proxify.Logger.Env.{ElasticOptions, KafkaOptions}

pub record RunnerOptions : Type 0 where
  pub output_directory : Bytes
  pub output_file : Bytes
  pub output_format : Bytes
  pub logger_config : Bytes
  pub config_dir : Bytes
  pub cert_cache_size : ℤ
  pub verbosity : Verbosity
  pub version : Bool
  pub listen_addr_http : Bytes
  pub listen_addr_socks5 : Bytes
  pub listen_dns_addr : Bytes
  pub dns_mapping : Bytes
  pub dns_fallback_resolver : Bytes
  pub no_color : Bool
  pub request_dsl : List Bytes
  pub request_match_replace_dsl : List Bytes
  pub response_dsl : List Bytes
  pub response_match_replace_dsl : List Bytes
  pub upstream_http_proxies : List Bytes
  pub upstream_socks5_proxies : List Bytes
  pub upstream_proxy_requests_number : ℤ
  pub dump_request : Bool
  pub dump_response : Bool
  pub out_ca_file : Bytes
  pub deny : List Bytes
  pub allow : List Bytes
  pub elastic : ElasticOptions
  pub kafka : KafkaOptions
  pub pass_through : List Bytes
  pub max_size : ℤ
  pub disable_update_check : Bool
  pub output_jsonl : Bool

-- `Config` of pkg/logger/options.go
pub record Config : Type 0 where
  pub elastic : ElasticOptions
  pub kafka : KafkaOptions

-- What the flags are bound to: the options, and the variables beside them.
pub record Flags : Type 0 where
  pub options : RunnerOptions
  pub cfg_file : Bytes
  pub silent : Bool
  pub verbose : Bool
  pub very_verbose : Bool

-- A call that may also end the program, by `os.Exit` or a fatal message, with a status.
pub data Ending {ℓ} (A : Type ℓ) : Type ℓ where
  returned : Outcome A → Ending A
  exited : ℕ → Ending A

-- Such a call, on a disk.
abbrev pub Start {ℓ} : Type ℓ → Type ℓ
Start A = Disk → Ending A × Disk

-- The calls of goflags, yaml, os, filepath and fileutil. `parse` sets the flags from the command
-- line and may end the program, `merge_config_file` sets those that the file names.
pub record RunnerLib : Type 0 where
  pub user_home_dir : Outcome Bytes
  pub join_path : List Bytes → Bytes
  pub parse : Flags → Start Flags
  pub merge_config_file : Bytes → Disk → Flags → Outcome (Unit {0}) × Flags
  pub config_file_path : Outcome Bytes
  pub mkdir_all : Bytes → Disk → Disk
  pub copy_file : Bytes → Bytes → Disk → Outcome (Unit {0}) × Disk
  pub encode_config : Config → Outcome Bytes
  pub decode_config : Bytes → Outcome Config
  pub expand_env : Bytes → Bytes

-- The rest of a start, where the call before it returned a value.
abbrev pub continue {ℓ κ} :
    {A : Type ℓ} {B : Type κ} → (A → Start B) → Ending A × Disk → Ending B × Disk
continue f (returned (ok a), d) = f a d
continue f (returned (err e), d) = (returned (err e), d)
continue f (returned panic, d) = (returned panic, d)
continue f (exited n, d) = (exited n, d)

infixl 5 ◌>>=◌
abbrev pub ◌>>=◌ {ℓ κ} : {A : Type ℓ} {B : Type κ} → Start A → (A → Start B) → Start B
(m >>= f) d = continue f (m d)

-- A call that returns, and leaves the disk alone.
abbrev pub call {ℓ} : {A : Type ℓ} → Outcome A → Start A
call m d = (returned m, d)

-- A call that returns, and may change the disk.
abbrev pub on_disk {ℓ} : {A : Type ℓ} → (Disk → Outcome A × Disk) → Start A
on_disk f d = let (r, d') = f d in (returned r, d')
