-- ===== src/Logger/Running/Closing.antt =====
-- What `Close` of pkg/logger/logger.go does to the transactions that are still in the queue, with
-- the JSON lines writer.
use proxify.Common.{◌≡◌, refl, sym, ◌∙◌, true, Option, some, List, [], arith, inl, inr}
use proxify.Go.Outcome.{Outcome, Error, ok, ok_injective}
use proxify.Go.Strings.{Bytes, codes}
use proxify.Go.Strings.Equality.{str_eq_refl}
use proxify.Go.Disk.{Disk, close_file}
use proxify.Go.Http.{Request}
use proxify.Types.{HttpTransaction, HttpRequestResponseLog, ResponseChain, UserData}
use proxify.Logger.Env.{OutputFileWriter, Logger, LogLib}
use proxify.Logger.Worker.{write_transaction, write_structured, write_log, write_stores}
use proxify.Logger.Worker.Inversion.{write_transaction-Round}
use proxify.Logger.Clients.{jsonl_write, jsonl_writer}
use proxify.Logger.Running.{
  LoggerState, started, Turn, call, work, close_first, close_queue, Run, here, later, close_writer,
}

module _ {W : Type 0} (lib : LogLib) (l : Logger W) (writer : OutputFileWriter W)
    (structured : l.s_writer ≡ some writer) (storeless : l.stores ≡ []) where
  write_log-keeps :
      (w : W)
      → ((e : HttpRequestResponseLog) → (writer.write e w).1 ≡ w)
      → (e : HttpRequestResponseLog) (v : W) → write_log writer e w ≡ ok v
      → v ≡ w
  unfolding write_log
  write_log-keeps w idle e v h = ground (arith, idle e)

  write_structured-keeps :
      (w : W)
      → ((e : HttpRequestResponseLog) → (writer.write e w).1 ≡ w)
      → (u : UserData) (req after : Request) (chain : Option ResponseChain) (v : W)
      → write_structured lib l u req chain w ≡ ok (after, v)
      → v ≡ w
  unfolding write_structured
  write_structured-keeps w idle u req after chain v h =
      grind (arith, structured, write_log-keeps w idle)

  write_stores-storeless :
      (t : HttpTransaction) (dump : Bytes) (chain : Option ResponseChain) (w : W)
      → write_stores lib l t dump chain w ≡ ok w
  unfolding write_stores
  write_stores-storeless t dump chain w = rw storeless refl

  -- A writer that writes nothing leaves a round with nothing to change.
  write_transaction-keeps :
      (w : W)
      → ((e : HttpRequestResponseLog) → (writer.write e w).1 ≡ w)
      → (t : HttpTransaction) (lines : List Bytes) (v : W)
      → write_transaction lib l t w ≡ ok (lines, v)
      → v ≡ w
  write_transaction-keeps w idle t lines v h = elim (write_transaction-Round lib l t lines w v h) [
    | inl same ↦ same
    | inr r ↦
        ok_injective (sym r.stored ∙ write_stores-storeless _ r.dump r.chain r.halfway)
        ∙ write_structured-keeps w idle t.userdata r.seen r.after r.chain r.halfway r.structured
  ]

module _ (lib : LogLib) (l : Logger Disk) (marshal : HttpRequestResponseLog → Outcome Bytes)
    (path : Bytes) (structured : l.s_writer ≡ some (jsonl_writer marshal path))
    (storeless : l.stores ≡ []) where
  abbrev IsShut : LoggerState Disk → Type 0
  IsShut s = (e : Error) × (s.world.breaks path ≡ some e)

  -- A closed file makes the writer idle.
  jsonl_writer-idle :
      {d : Disk} (e : Error)
      → d.breaks path ≡ some e
      → (entry : HttpRequestResponseLog) → ((jsonl_writer marshal path).write entry d).1 ≡ d
  unfolding jsonl_writer jsonl_write
  jsonl_writer-idle e h entry = ground arith

  close_writer-IsShut : (d : Disk) → (e : Error) × ((close_writer l d).breaks path ≡ some e)
  unfolding close_writer jsonl_writer close_file
  close_writer-IsShut d = (codes "file already closed", rw (structured, str_eq_refl) refl)

  -- With the writer closed, no turn changes a file.
  Turn-keeps :
      {s u : LoggerState Disk}
      → Turn lib l s u
      → s.writer_closed ≡ true
      → IsShut s
      → (u.world ≡ s.world) × (u.writer_closed ≡ true)
  Turn-keeps (call s c step same open_) shut (e, h) = (refl, shut)
  Turn-keeps (work s t rest lines w queued did) shut (e, h) = (
    write_transaction-keeps lib l (jsonl_writer marshal path) structured storeless s.world
        (jsonl_writer-idle e h) t lines w did,
    shut,
  )
  Turn-keeps (close_first s open_) shut (e, h) = cc
  Turn-keeps (close_queue s closed open_) shut (e, h) = (refl, shut)

  Turn-IsShut :
      {s u : LoggerState Disk}
      → Turn lib l s u
      → (s.writer_closed ≡ true → IsShut s)
      → u.writer_closed ≡ true
      → IsShut u
  Turn-IsShut (close_first s open_) i shut = close_writer-IsShut s.world
  Turn-IsShut (call s c step same open_) i shut = i shut
  Turn-IsShut (close_queue s closed open_) i shut = i shut
  Turn-IsShut (work s t rest lines w queued did) i shut =
      let (e, h) = i shut in (e, rw (Turn-keeps (work s t rest lines w queued did) shut (e, h)).0 h)

  Run-IsShut :
      {d : Disk} {s : LoggerState Disk}
      → Run lib l (started d) s
      → s.writer_closed ≡ true
      → IsShut s
  Run-IsShut here shut = cc
  Run-IsShut (later r turn) shut = Turn-IsShut turn (Run-IsShut r) shut

  Run-keeps :
      {s u : LoggerState Disk}
      → Run lib l s u
      → s.writer_closed ≡ true
      → IsShut s
      → (u.world ≡ s.world) × (u.writer_closed ≡ true)
  Run-keeps here shut i = (refl, shut)
  Run-keeps (later r turn) shut (e, h) =
      let (same, flag) = Run-keeps r shut (e, h) in
      let (kept, flag') = Turn-keeps turn flag (e, rw same h) in (kept ∙ same, flag')

  -- With the JSON lines writer and no stores: in every state that is reached after `Close`
  -- closed the writer, whatever the worker takes from the queue, all files are as they were.
  pub closed-loses :
      {d : Disk} {s u : LoggerState Disk}
      → Run lib l (started d) s
      → s.writer_closed ≡ true
      → Run lib l s u
      → u.world ≡ s.world
  closed-loses r shut q = (Run-keeps q shut (Run-IsShut r shut)).0
