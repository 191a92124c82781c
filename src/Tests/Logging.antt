-- ===== src/Tests/Logging.antt =====
-- Tests of pkg/logger.
use proxify.Common.{ℕ, ◌≤◌, ◌≡◌, refl, Bool, true, false, Option, none, some, List, [], ◌∷◌, ◌++◌}
use proxify.Go.Outcome.{Outcome, ok}
use proxify.Go.Strings.{Bytes, codes, has_suffix, has_prefix}
use proxify.Go.Http.{dump_request}
use proxify.Go.Disk.{Disk, contents}
use proxify.Types.{
  HttpTransaction, HttpRequest, HttpRequestResponseLog, default_level, very_verbose,
  new_http_response_data,
}
use proxify.Types.Records.{IsComplete}
use proxify.Logger.Env.{OptionsLogger, Logger, OutputFileWriter}
use proxify.Logger.Storing.{
  limit_size, format_transaction, store_name, is_match, store_writer, part_suffix, save_all,
  sprintf,
}
use proxify.Logger.Storing.Formatting.{stored_text}
use proxify.Logger.Worker.{
  write_stores, write_transaction, is_filtered, async_write, debug_log_request, debug_log_response,
  write_structured,
}
use proxify.Logger.Worker.Structured.{after_debug, IsUsable, write_transaction-entry}
use proxify.Logger.Clients.{kafka_save}
use proxify.Logger.Clients.Blanks.{kafka_logger, blanks, async_write-blanks}
use proxify.Logger.Clients.Files.{
  file_logger, log_path, plain_name, write_stores-together, write_stores-apart,
}
use proxify.Tests.Fixtures.{
  question, answer, http, dump, chain, log_lib, log_options, user, empty_disk,
}

abbrev pub transaction : Option Bool → HttpTransaction
transaction m = record {
  userdata = user m;
  raw_data = [];
  data_bytes = [];
  data_string = [];
  name = [];
  part_suffix = [];
  format = [];
  request = some question;
  response = some answer;
}

abbrev pub collecting : OutputFileWriter (List HttpRequestResponseLog)
collecting = record { write = λ e w. (ok tt, w ++ (e ∷ [])); close = λ w. w }

abbrev pub verbose_logger : Logger (List HttpRequestResponseLog)
verbose_logger = record {
  options = log_options very_verbose;
  stores = [];
  s_writer = some collecting;
}

pub usable : IsUsable log_lib collecting dump
usable = record { dumps = λ r. refl; heads = λ r e. cc; writes = λ e v h. cc }

-- At the highest verbosity the entry has an empty body.
write_transaction-entry_example :
    (lines : List Bytes) × (log : HttpRequest) × (write_transaction log_lib verbose_logger
        (transaction none)
        []
      ≡ ok (
        lines,
        (collecting.write
            (record {
              timestamp = log_lib.now;
              url = http.url_string question.url;
              request = some log;
              response = some (new_http_response_data chain);
            })
            []).1,
      ))
    × IsComplete
        (after_debug verbose_logger.options question)
        []
        (dump (after_debug verbose_logger.options question))
        log
unfolding is_filtered
write_transaction-entry_example =
    write_transaction-entry log_lib verbose_logger collecting dump (transaction none) question
      answer chain (codes "hi") [] usable refl refl refl refl refl refl refl

join_path : Bytes → Bytes → Bytes
unfolding codes
join_path folder file = folder ++ (codes "/" ++ file)

abbrev logs : OptionsLogger
logs = log_options default_level

write_stores-together_example :
    (d' : Disk) × (write_stores log_lib
        (file_logger join_path log_lib logs)
        (transaction (some false))
        (codes "Q")
        (some chain)
        empty_disk
      ≡ ok d')
    × (contents (log_path join_path log_lib logs (plain_name (user (some false)))) d'
        ≡ (contents (log_path join_path log_lib logs (plain_name (user (some false)))) empty_disk
            ++ limit_size log_lib logs.max_size (stored_text false (codes "Q")))
          ++ limit_size log_lib logs.max_size (stored_text true chain.full_response))
unfolding codes is_match
write_stores-together_example =
    write_stores-together join_path log_lib logs (transaction (some false)) (codes "Q") chain
      empty_disk refl refl refl refl refl (refl, refl)

write_stores-apart_example :
    (d' : Disk) × (write_stores log_lib
        (file_logger join_path log_lib logs)
        (transaction (some true))
        (codes "Q")
        (some chain)
        empty_disk
      ≡ ok d')
    × (contents (log_path join_path log_lib logs (plain_name (user (some true)))) d'
        ≡ contents (log_path join_path log_lib logs (plain_name (user (some true)))) empty_disk
          ++ limit_size log_lib logs.max_size (stored_text false (codes "Q")))
    × (contents
          (log_path join_path log_lib logs (plain_name (user (some true)) ++ codes ".match"))
          d'
        ≡ contents
            (log_path join_path log_lib logs (plain_name (user (some true)) ++ codes ".match"))
            empty_disk
          ++ limit_size log_lib logs.max_size (stored_text true chain.full_response))
unfolding codes is_match join_path
write_stores-apart_example =
    write_stores-apart join_path log_lib logs (transaction (some true)) (codes "Q") chain empty_disk
      refl refl refl refl refl (refl, refl) (refl, refl) (λ e. cc)

-- The names of the two files.
matched_names :
    (store_name logs [] (record (transaction (some true)) { userdata = user (some true) })
      ≡ codes "a-b.c-x1.match")
    × (log_path join_path log_lib logs (plain_name (user (some true))) ≡ codes "logs/a-b.c-x1.txt")
unfolding store_name is_match codes join_path
matched_names = (refl, refl)

abbrev outbox : Bytes → Bytes → List (Bytes × Bytes) → Outcome (Unit {0}) × List (Bytes × Bytes)
outbox topic value w = (ok tt, w ++ ((topic, value) ∷ []))

abbrev broker_logger : Logger (List (Bytes × Bytes))
broker_logger = kafka_logger log_lib logs outbox (codes "t")

-- A request and its response, each sent as a line end.
sent_lines :
    async_write log_lib broker_logger (transaction none ∷ []) []
    ≡ ok ([], (codes "t", codes "\n") ∷ (codes "t", codes "\n") ∷ [])
unfolding async_write write_transaction dump_request debug_log_request write_structured write_stores
    store_writer part_suffix save_all kafka_save debug_log_response codes format_transaction sprintf
    has_suffix has_prefix
sent_lines = refl

async_write-blanks_example :
    (n : ℕ) × (n ≤ 2)
    × ((codes "t", codes "\n") ∷ (codes "t", codes "\n") ∷ []
        ≡ blanks log_lib logs outbox (codes "t") n [])
async_write-blanks_example =
    async_write-blanks log_lib logs outbox (codes "t") (transaction none ∷ []) [] [] _ (refl, tt)
      sent_lines
