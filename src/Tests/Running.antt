-- ===== src/Tests/Running.antt =====
-- Runs of the logger of pkg/logger, with what `Close` cuts off.
use proxify.Common.{◌++◌, ◌≡◌, refl, true, none, some, [], ◌∷◌, arith, List}
use proxify.Go.Outcome.{Outcome, ok}
use proxify.Go.Strings.{Bytes, codes}
use proxify.Go.Disk.{Disk}
use proxify.Go.Http.{Request, buffer}
use proxify.Types.{HttpTransaction, HttpRequestResponseLog, default_level}
use proxify.Logger.Env.{Logger, OutputFileWriter}
use proxify.Logger.Queue.{
  Channel, opened, all_transactions, send, answered, transactions, response_transaction,
}
use proxify.Logger.Worker.{is_filtered, async_write}
use proxify.Logger.Worker.Structured.{IsUsable, write_transaction-entry}
use proxify.Logger.Clients.{jsonl_writer, jsonl_write}
use proxify.Logger.Running.{
  LoggerState, started, call, work, close_first, Run, here, later, close_writer,
}
use proxify.Logger.Running.Sequential.{IsCalm, IsSequential, started-IsSequential, started-drains}
use proxify.Logger.Running.Recorded.{started-Records}
use proxify.Logger.Worker.Entries.{Records}
use proxify.Logger.Worker.Recording.{write_all}
use proxify.Logger.Running.Closing.{closed-loses}
use proxify.Tests.Fixtures.{question, answer, dump, chain, log_lib, log_options, user, empty_disk}
use proxify.Tests.Logging.{collecting, usable}

abbrev logger : Logger (List HttpRequestResponseLog)
logger = record { options = log_options default_level; stores = []; s_writer = some collecting }

-- The response that is logged.
abbrev exchange : HttpTransaction
exchange = response_transaction (user none) answer

abbrev queued : Channel
queued = record opened { queue = exchange ∷ []; logged = answered (user none) (some answer) ∷ [] }

abbrev waiting : LoggerState (List HttpRequestResponseLog)
waiting = record (started []) { channel = queued }

logged_run : Run log_lib logger (started []) waiting
unfolding transactions
logged_run = later here (
    call (started []) queued
      (send opened (answered (user none) (some answer)) exchange refl refl (omega arith)) refl refl)

calm : IsCalm log_lib logger exchange
unfolding is_filtered response_transaction
calm w =
    let (lines, log, did, complete) =
      write_transaction-entry log_lib logger collecting dump exchange question answer chain
        (codes "hi") w usable refl refl refl refl refl refl refl in
    (lines, _, did)

started-IsSequential_example : IsSequential log_lib logger [] waiting
started-IsSequential_example = started-IsSequential log_lib logger logged_run

started-drains_example :
    (u : LoggerState (List HttpRequestResponseLog)) × Run log_lib logger waiting u
    × (u.channel.queue ≡ [])
    × (async_write log_lib logger (all_transactions queued.logged) [] ≡ ok (u.printed, u.world))
started-drains_example = started-drains log_lib logger logged_run refl (calm, tt)

-- The worker has handled the response.
abbrev handled : LoggerState (List HttpRequestResponseLog)
handled = record waiting {
  channel = record queued { queue = []; handled = exchange ∷ [] };
  printed = (calm []).0;
  world = (calm []).1;
}

handled_run : Run log_lib logger (started []) handled
handled_run = later logged_run (work waiting exchange [] (calm []).0 (calm []).1 refl (calm []).2)

readable_body :
    (req : Request) → exchange.request ≡ some req → req.body ≡ some (buffer (codes "hi"))
unfolding response_transaction
readable_body req h = ground (arith, h)

started-Records_example :
    (es : List HttpRequestResponseLog) × (handled.world ≡ write_all log_lib collecting es [])
    × Records log_lib logger.options dump (exchange ∷ []) es
    × ((exchange ∷ []) ++ [] ≡ all_transactions queued.logged)
unfolding response_transaction
started-Records_example =
    started-Records log_lib logger collecting dump usable (λ r e. cc) refl refl handled_run refl
      ((λ req h. (codes "hi", readable_body req h)), tt)

abbrev marshal : HttpRequestResponseLog → Outcome Bytes
marshal e = ok e.timestamp

abbrev line_writer : OutputFileWriter Disk
line_writer = jsonl_writer marshal (codes "f")

abbrev line_logger : Logger Disk
line_logger = record {
  options = log_options default_level;
  stores = [];
  s_writer = some line_writer;
}

abbrev closed_disk : Disk
closed_disk = close_writer line_logger empty_disk

-- The response is in the queue when the writer is closed.
abbrev closed : LoggerState Disk
closed = record (started closed_disk) { channel = queued; writer_closed = true }

closed_run : Run log_lib line_logger (started empty_disk) closed
unfolding transactions
closed_run =
    later
      (later here (
        call (started empty_disk) queued
          (send opened (answered (user none) (some answer)) exchange refl refl (omega arith)) refl
          refl))
      (close_first (record (started empty_disk) { channel = queued }) refl)

line_writer-IsUsable : IsUsable log_lib line_writer dump
unfolding jsonl_writer jsonl_write
line_writer-IsUsable = record {
  dumps = λ r. refl;
  heads = λ r e. cc;
  writes = λ e v h. ground arith;
}

late_round : IsCalm log_lib line_logger exchange
unfolding is_filtered response_transaction
late_round d =
    let (lines, log, did, complete) =
      write_transaction-entry log_lib line_logger line_writer dump exchange question answer chain
        (codes "hi") d line_writer-IsUsable refl refl refl refl refl refl refl in
    (lines, _, did)

abbrev emptied : LoggerState Disk
emptied = record closed {
  channel = record queued { queue = []; handled = exchange ∷ [] };
  printed = (late_round closed_disk).0;
  world = (late_round closed_disk).1;
}

closed-loses_example : emptied.world ≡ closed.world
closed-loses_example =
    closed-loses log_lib line_logger marshal (codes "f") refl refl closed_run refl (
      later here (
        work closed exchange [] (late_round closed_disk).0 (late_round closed_disk).1 refl
          (late_round closed_disk).2))
