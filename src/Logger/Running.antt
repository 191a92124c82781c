-- ===== src/Logger/Running.antt =====
-- A logger of pkg/logger/logger.go at work: its callers, the worker that `NewLogger` starts, and
-- `Close` take turns over the queue and the outside world.
pub mod Sequential
pub mod Closing
pub mod Recorded
use proxify.Common.{◌≡◌, Bool, true, false, Option, none, some, List, [], ◌∷◌, ◌++◌}
use proxify.Go.Outcome.{ok}
use proxify.Go.Strings.{Bytes}
use proxify.Types.{HttpTransaction}
use proxify.Logger.Env.{OutputFileWriter, Logger, LogLib}
use proxify.Logger.Queue.{Channel, Step, opened}
use proxify.Logger.Worker.{write_transaction}

module _ {W : Type 0} where
  close_sink : Option (OutputFileWriter W) → W → W
  close_sink none w = w
  close_sink (some writer) w = writer.close w

  -- The first half of `Close`: the structured writer, whose error is dropped.
  unfoldable pub close_writer : Logger W → W → W
  unfolding close_sink
  close_writer l w = close_sink l.s_writer w

-- The queue, what the worker has printed, the world, and whether `Close` has closed the writer.
pub record LoggerState (W : Type 0) : Type 0 where
  pub channel : Channel
  pub printed : List Bytes
  pub world : W
  pub writer_closed : Bool

abbrev pub started : {W : Type 0} → W → LoggerState W
started w = record { channel = opened; printed = []; world = w; writer_closed = false }

-- A caller logs a message, which neither takes from the queue nor closes it; the worker takes a transaction and handles it, or panics, which ends
-- the program; `Close` closes the writer, and then the queue.
pub data Turn {W : Type 0} (lib : LogLib) (l : Logger W)
    : LoggerState W → LoggerState W → Type 0 where
  call :
      (s : LoggerState W) (c : Channel)
      → Step s.channel c
      → c.handled ≡ s.channel.handled
      → c.closed ≡ s.channel.closed
      → Turn lib l s (record s { channel = c })
  work :
      (s : LoggerState W) (t : HttpTransaction) (rest : List HttpTransaction) (lines : List Bytes)
      (w : W)
      → s.channel.queue ≡ t ∷ rest
      → write_transaction lib l t s.world ≡ ok (lines, w)
      → Turn lib l s (record s {
        channel = record s.channel { queue = rest; handled = s.channel.handled ++ (t ∷ []) };
        printed = s.printed ++ lines;
        world = w;
      })
  close_first :
      (s : LoggerState W)
      → s.writer_closed ≡ false
      → Turn lib l s (record s { world = close_writer l s.world; writer_closed = true })
  close_queue :
      (s : LoggerState W)
      → s.writer_closed ≡ true
      → s.channel.closed ≡ false
      → Turn lib l s (record s { channel = record s.channel { closed = true } })

-- What can come of a running logger.
pub data Run {W : Type 0} (lib : LogLib) (l : Logger W) (s : LoggerState W)
    : LoggerState W → Type 0 where
  here : Run lib l s s
  later : {t u : LoggerState W} → Run lib l s t → Turn lib l t u → Run lib l s u
