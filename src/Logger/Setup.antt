-- ===== src/Logger/Setup.antt =====
-- `NewLogger` of pkg/logger/logger.go and `NewOutputFileWriter` of pkg/logger/writer.go: which
-- stores and which writer a logger gets.
pub mod Tolerance
use proxify.Common.{Option, none, some, List, [], ◌∷◌, ◌++◌, if◌then◌else◌, is_empty}
use proxify.Go.Outcome.{Outcome, ok, err, panic, ◌>>=◌}
use proxify.Go.Strings.{Bytes, codes, str_eq}
use proxify.Logger.Env.{
  Store, OutputFileWriter, Logger, OptionsLogger, ElasticOptions, KafkaOptions,
}

-- The constructors of the clients and writers.
pub record Constructors (W : Type 0) : Type 0 where
  pub new_elastic : ElasticOptions → Outcome (Store W)
  pub new_kafka : KafkaOptions → Outcome (Store W)
  pub new_file : Bytes → Outcome (Store W)
  pub new_json_lines_writer : Bytes → Outcome (OutputFileWriter W)
  pub new_yaml_multi_doc_writer : Bytes → Outcome (OutputFileWriter W)

error_invalid_format : Bytes
unfolding codes
error_invalid_format = codes "invalid format: expected jsonl or yaml"

-- What a pointer leads to; nil panics.
abbrev pub pointed {ℓ} : {A : Type ℓ} → Option A → Outcome A
pointed none = panic
pointed (some a) = ok a

module _ {W : Type 0} (c : Constructors W) where
  -- `NewOutputFileWriter`
  unfoldable pub new_output_file_writer : Bytes → Bytes → Outcome (OutputFileWriter W)
  unfolding error_invalid_format
  new_output_file_writer format path =
      if str_eq format (codes "jsonl")
      then c.new_json_lines_writer path
      else if str_eq format (codes "yaml")
      then c.new_yaml_multi_doc_writer path
      else err error_invalid_format

  -- A constructor that fails is logged, and its store is left out.
  abbrev add_store : List (Store W) → Outcome (Store W) → Outcome (List (Store W))
  add_store stores (ok s) = ok (stores ++ (s ∷ []))
  add_store stores (err e) = ok stores
  add_store stores panic = panic

  abbrev set_writer : Outcome (OutputFileWriter W) → Outcome (Option (OutputFileWriter W))
  set_writer (ok w) = ok (some w)
  set_writer (err e) = ok none
  set_writer panic = panic

  -- `NewLogger`, up to the start of the worker.
  unfoldable pub new_logger : OptionsLogger → Outcome (Logger W)
  new_logger o = do
    elastic ← pointed o.elastic
    s₁ ← if is_empty elastic.addr then ok [] else add_store [] (c.new_elastic elastic)
    kafka ← pointed o.kafka
    s₂ ← if is_empty kafka.addr then ok s₁ else add_store s₁ (c.new_kafka kafka)
    s₃ ← add_store s₂ (c.new_file o.output_folder)
    writer ←
        if is_empty o.output_format
        then ok none
        else set_writer (new_output_file_writer o.output_format o.output_file)
    ok (record { options = o; stores = s₃; s_writer = writer })
