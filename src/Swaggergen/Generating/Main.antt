-- ===== src/Swaggergen/Generating/Main.antt =====
-- `main` of cmd/swaggergen/swaggergen.go.
use proxify.Common.{◌||◌, Option, List, [], if◌then◌else◌, is_empty}
use proxify.Go.Outcome.{Outcome, ok, err, panic}
use proxify.Go.Strings.{Bytes}
use proxify.Go.Http.{HttpLib, Url}
use proxify.Go.Disk.{Disk}
use proxify.Swaggergen.Schemas.{Json}
use proxify.Swaggergen.Generating.{Options, YamlLib, Found, generate}

-- How the program ends: with the specification written, or by a fatal message or a panic.
pub data GeneratorEnding : Type 0 where
  written fatal crashed : GeneratorEnding

-- `Parse` of the flags, `url.Parse`, and what there is in the folder of the logs.
pub record MainLib : Type 0 where
  pub parse : Options → Outcome Options
  pub parse_url : Bytes → Outcome Url
  pub logs : Bytes → Option (List Found)

unfoldable pub generator_defaults : Options
generator_defaults = record { log_dir = []; output_spec = []; api = [] }

unfoldable pub ending_of : Outcome (Unit {0}) × Disk → GeneratorEnding × Disk
ending_of (ok done, d) = (written, d)
ending_of (err e, d) = (fatal, d)
ending_of (panic, d) = (crashed, d)

module _ (main_lib : MainLib) (unmarshal : Bytes → Outcome Json) (http : HttpLib)
    (lib : YamlLib) where
  -- The part behind the flags.
  unfoldable pub run_generator : Options → Disk → GeneratorEnding × Disk
  unfolding ending_of
  run_generator o d =
      if is_empty o.log_dir || is_empty o.output_spec || is_empty o.api
      then (fatal, d)
      else elim (main_lib.parse_url o.api) [
        | panic ↦ (crashed, d)
        | err e ↦ (fatal, d)
        | ok u ↦ ending_of (generate unmarshal http lib o (main_lib.logs o.log_dir) d)
      ]

  unfoldable pub main : Disk → GeneratorEnding × Disk
  main d = elim (main_lib.parse generator_defaults) [
    | panic ↦ (crashed, d)
    | err e ↦ (fatal, d)
    | ok o ↦ run_generator o d
  ]
