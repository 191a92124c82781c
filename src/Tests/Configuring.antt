-- ===== src/Tests/Configuring.antt =====
-- Tests of the setup of pkg/logger, with a disk behind its stores.
use proxify.Common.{◌≡◌, ◌++◌, refl, some, none}
use proxify.Go.Outcome.{ok, err, panic}
use proxify.Go.Strings.{codes}
use proxify.Go.Disk.{Disk}
use proxify.Types.{default_level}
use proxify.Logger.Env.{
  OptionsLogger, ElasticOptions, KafkaOptions, Logger, Store, OutputFileWriter,
}
use proxify.Logger.Setup.{Constructors, new_logger}
use proxify.Logger.Setup.Tolerance.{IsCalm, has_client, made_client, new_logger-stores}
use proxify.Runner.Flags.{no_elastic}
use proxify.Tests.Fixtures.{log_options}

abbrev pub quiet : Store Disk
quiet = record { save = λ t d. (ok tt, d) }

abbrev pub silent_writer : OutputFileWriter Disk
silent_writer = record { write = λ e d. (ok tt, d); close = λ d. d }

-- The elastic client cannot be made.
abbrev pub constructors : Constructors Disk
constructors = record {
  new_elastic = λ o. err (codes "refused");
  new_kafka = λ o. ok quiet;
  new_file = λ p. ok quiet;
  new_json_lines_writer = λ p. ok silent_writer;
  new_yaml_multi_doc_writer = λ p. ok silent_writer;
}

abbrev elastic : ElasticOptions
elastic = record no_elastic { addr = codes "e" }

abbrev kafka : KafkaOptions
kafka = record { addr = codes "k"; topic = codes "t" }

abbrev exporting : OptionsLogger
exporting = record (log_options default_level) { elastic = some elastic; kafka = some kafka }

-- Options without a pointer to those of elastic.
no_pointer : new_logger constructors (record exporting { elastic = none }) ≡ panic
unfolding new_logger
no_pointer = refl

constructors-IsCalm : IsCalm constructors
constructors-IsCalm = record {
  elastic = λ o e. cc;
  kafka = λ o e. cc;
  file = λ p e. cc;
  jsonl = λ p e. cc;
  yaml = λ p e. cc;
}

new_logger-stores_example :
    (l : Logger Disk) × (new_logger constructors exporting ≡ ok l)
    × (l.options ≡ exporting)
    × (l.stores
        ≡ (has_client constructors (codes "e") (err (codes "refused"))
            ++ has_client constructors (codes "k") (ok quiet))
          ++ made_client constructors (ok quiet))
new_logger-stores_example =
    new_logger-stores constructors exporting elastic kafka refl refl constructors-IsCalm
