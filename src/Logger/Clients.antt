-- ===== src/Logger/Clients.antt =====
-- The stores and writers of pkg/logger: file/file.go, kafka/kafka.go, elastic/elasticsearch.go,
-- jsonl/jsonl.go and yaml/yaml.go.
pub mod Bounds
pub mod Making
pub mod Files
pub mod Exports
pub mod Blanks
use proxify.Common.{
  ℕ, Bool, true, false, ◌&&◌, not, Option, none, some, List, [], ◌∷◌, ◌++◌, leb, if◌then◌else◌,
  is_empty,
}
use proxify.Go.Outcome.{Outcome, Error, ok, err, panic, ◌>>=◌}
use proxify.Go.Strings.{Bytes, codes, replace_all}
use proxify.Go.Disk.{Disk, append_file, close_file}
use proxify.Types.{HttpTransaction, HttpRequestResponseLog}
use proxify.Logger.Env.{Store, OutputFileWriter, ElasticOptions, KafkaOptions}

-- `file.Options`
pub record FileOptions : Type 0 where
  pub output_folder : Bytes
  pub output_file : Bytes
  pub output_jsonl : Bool

-- `writeToFile`
unfoldable pub write_to_file : Bytes → Bytes → Disk → Outcome (Unit {0}) × Disk
write_to_file path content d = elim (d.refuses path) [
  | some e ↦ (err e, d)
  | none ↦ elim (d.breaks path) [
    | some e ↦ (err e, append_file path [] d)
    | none ↦ (ok tt, append_file path content d)
  ]
]

-- `Save` of the file client: the folder first, then the single file, whose result wins if it is
-- written. `join_path` is `filepath.Join`.
unfoldable pub file_save :
    (Bytes → Bytes → Bytes) → FileOptions → HttpTransaction → Disk → Outcome (Unit {0}) × Disk
file_save join_path o t d =
    let log_file = t.name ++ codes ".txt" in
    let (result, d') : Outcome (Unit {0}) × Disk =
      if is_empty o.output_folder
      then (ok tt, d)
      else write_to_file (join_path o.output_folder log_file) t.raw_data d in
    if not (is_empty o.output_file) && not (is_empty t.data_bytes)
    then write_to_file o.output_file t.data_string d'
    else (result, d')

abbrev pub file_store : (Bytes → Bytes → Bytes) → FileOptions → Store Disk
file_store join_path o = record { save = file_save join_path o }

module _ {W : Type 0} where
  -- `Save` of the kafka client; `send` is the producer's `SendMessage` of a topic and a value.
  unfoldable pub kafka_save :
      (Bytes → Bytes → W → Outcome (Unit {0}) × W)
      → Bytes
      → HttpTransaction
      → W
      → Outcome (Unit {0}) × W
  kafka_save send topic t w = send topic t.data_string w

  abbrev pub kafka_store : (Bytes → Bytes → W → Outcome (Unit {0}) × W) → Bytes → Store W
  kafka_store send topic = record { save = kafka_save send topic }

-- The document of an update: `request` or `response`, and the time.
pub record Doc : Type 0 where
  pub field : Bytes
  pub content : Bytes
  pub timestamp : Bytes

-- What the server answers, with the failure of reading the answer to its end.
pub record EsResponse : Type 0 where
  pub status_code : ℕ
  pub description : Bytes
  pub drain : Option Error

-- The doc that `Save` of the elastic client builds.
unfoldable pub elastic_doc : Bytes → HttpTransaction → Doc
elastic_doc now t = record {
  field = if t.userdata.has_response then codes "response" else codes "request";
  content = t.data_string;
  timestamp = now;
}

elastic_answer : Outcome (Option EsResponse) → Outcome (Unit {0})
elastic_answer panic = panic
elastic_answer (err e) = err (codes "error thrown by elasticsearch: " ++ e)
elastic_answer (ok none) = panic
elastic_answer (ok (some res)) =
    if leb 300 res.status_code
    then err (codes "elasticsearch responded with an error: " ++ res.description)
    else elim res.drain [ none ↦ ok tt | some e ↦ err e ]

module _ {W : Type 0} where
  -- `Save` of the elastic client; `marshal` is `json.Marshal` of the update with its doc, and
  -- `update` is `UpdateRequest.Do` for an index, a document's id and a body.
  unfoldable pub elastic_save :
      (Doc → Outcome Bytes)
      → (Bytes → Bytes → Bytes → W → Outcome (Option EsResponse) × W)
      → Bytes
      → Bytes
      → HttpTransaction
      → W
      → Outcome (Unit {0}) × W
  unfolding elastic_answer
  elastic_save marshal update now index t w = elim (marshal (elastic_doc now t)) [
    | panic ↦ (panic, w)
    | err e ↦ (err e, w)
    | ok body ↦ let (answer, w') = update index t.name body w in (elastic_answer answer, w')
  ]

-- `Write` of the JSON lines writer: one line for a transaction. The results of the two writes are
-- dropped. `marshal` is `json.Marshal`.
unfoldable pub jsonl_write :
    (HttpRequestResponseLog → Outcome Bytes)
    → Bytes
    → HttpRequestResponseLog
    → Disk
    → Outcome (Unit {0}) × Disk
jsonl_write marshal path entry d = elim (marshal entry) [
  | panic ↦ (panic, d)
  | err e ↦ (err e, d)
  | ok binx ↦ elim (d.breaks path) [
    | some e ↦ (ok tt, d)
    | none ↦ (
      ok tt,
      append_file path (codes "\n") (append_file path (replace_all binx b'\n' (codes "\\n")) d),
    )
  ]
]

-- The JSON lines writer, with `Close`.
unfoldable pub jsonl_writer :
    (HttpRequestResponseLog → Outcome Bytes) → Bytes → OutputFileWriter Disk
jsonl_writer marshal path = record { write = jsonl_write marshal path; close = close_file path }

-- The encoder of goccy/go-yaml that writes documents to a file.
pub record YamlEncoder : Type 0 where
  pub encode : Bytes → HttpRequestResponseLog → Disk → Outcome (Unit {0}) × Disk
  pub finish : Bytes → Disk → Disk

-- The writer of YAML documents: `Write` gives the encoder's error, and `Close` drops both errors.
unfoldable pub yaml_writer : YamlEncoder → Bytes → OutputFileWriter Disk
yaml_writer enc path = record {
  write = enc.encode path;
  close = λ d. close_file path (enc.finish path d);
}
