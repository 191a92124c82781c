-- ===== src/Logger/Clients/Exports.antt =====
-- What the exporters of pkg/logger/kafka and pkg/logger/elastic send, and the lines of the JSON
-- lines writer.
use proxify.Common.{suc, ◌≡◌, ◌≤◌, ◌↔◌, refl, Option, none, some, [], ◌++◌, arith, append_assoc}
use proxify.Go.Outcome.{Outcome, ok}
use proxify.Go.Strings.{Bytes, codes, replace_all}
use proxify.Go.Strings.Equality.{str_eq_refl}
use proxify.Go.Strings.Splitting.{Lacks}
use proxify.Go.Strings.Replacing.{replace_all-Lacks}
use proxify.Go.Disk.{Disk, contents, contents-append_file}
use proxify.Types.{HttpTransaction, HttpRequestResponseLog}
use proxify.Logger.Env.{OptionsLogger, LogLib}
use proxify.Logger.Storing.{limit_size, format_transaction}
use proxify.Logger.Storing.Formatting.{format_transaction-data_string}
use proxify.Logger.Clients.{Doc, EsResponse, kafka_save, elastic_save, elastic_doc, jsonl_write}

-- For a transaction with an empty `Data` field: whatever it holds else, the kafka client is
-- made to send a line end and nothing more, cut to the maximal size.
pub kafka_save-blank :
    {W : Type 0} (lib : LogLib) (o : OptionsLogger)
    (send : Bytes → Bytes → W → Outcome (Unit {0}) × W) (topic suffix : Bytes) (t : HttpTransaction)
    (w : W)
    → t.data_bytes ≡ []
    → kafka_save send topic (format_transaction lib o suffix t) w
      ≡ send topic (limit_size lib o.max_size (codes "\n")) w
unfolding kafka_save
kafka_save-blank lib o send topic suffix t w h =
    rw (format_transaction-data_string lib o suffix t h) refl

elastic_doc-blank :
    (lib : LogLib) (o : OptionsLogger) (now suffix : Bytes) (t : HttpTransaction)
    → t.data_bytes ≡ []
    → (elastic_doc now (format_transaction lib o suffix t)).content
      ≡ limit_size lib o.max_size (codes "\n")
unfolding elastic_doc
elastic_doc-blank lib o now suffix t h = format_transaction-data_string lib o suffix t h

-- When the document is marshalled and the server answers: the elastic client reports success
-- exactly when the answer's status is below 300 and the answer is read to its end.
pub elastic_save-ok_iff :
    {W : Type 0} (marshal : Doc → Outcome Bytes)
    (update : Bytes → Bytes → Bytes → W → Outcome (Option EsResponse) × W) (now index : Bytes)
    (t : HttpTransaction) (w : W) (body : Bytes) (res : EsResponse)
    → marshal (elastic_doc now t) ≡ ok body
    → (update index t.name body w).0 ≡ ok (some res)
    → ((elastic_save marshal update now index t w).0 ≡ ok tt)
      ↔ ((suc res.status_code ≤ 300) × (res.drain ≡ none))
unfolding elastic_save
elastic_save-ok_iff marshal update now index t w body res hm hu = ground arith

escaped-Lacks : Lacks b'\n' (codes "\\n")
unfolding codes
escaped-Lacks = omega arith

-- When the entry is marshalled and the file can be written: the JSON lines writer appends one
-- line, a text without a line end followed by a line end.
pub jsonl_write-line :
    (marshal : HttpRequestResponseLog → Outcome Bytes) (path : Bytes)
    (entry : HttpRequestResponseLog) (d : Disk) (binx : Bytes)
    → marshal entry ≡ ok binx
    → d.breaks path ≡ none
    → (line : Bytes) × Lacks b'\n' line
      × (contents path (jsonl_write marshal path entry d).1
          ≡ contents path d ++ (line ++ codes "\n"))
unfolding jsonl_write
jsonl_write-line marshal path entry d binx hm hb = (
  replace_all binx b'\n' (codes "\\n"),
  replace_all-Lacks binx (codes "\\n") b'\n' escaped-Lacks,
  rw (hm, jsonl_write)
      (rw
        (
          hb, jsonl_write, contents-append_file, str_eq_refl, contents-append_file, str_eq_refl,
          append_assoc,
        )
        refl),
)
