-- ===== src/Logger/Running/Recorded.antt =====
-- A running logger of pkg/logger/logger.go against its abstract log.
use proxify.Common.{◌≡◌, ◌≢◌, ap, sym, ◌∙◌, false, some, List, [], ◌++◌, All}
use proxify.Go.Outcome.{panic, ok_injective}
use proxify.Go.Strings.{Bytes}
use proxify.Go.Http.{Request, Response}
use proxify.Types.{HttpRequestResponseLog}
use proxify.Logger.Env.{Logger, OutputFileWriter, LogLib}
use proxify.Logger.Queue.{all_transactions}
use proxify.Logger.Worker.Structured.{IsUsable}
use proxify.Logger.Worker.Entries.{Records, IsReadable}
use proxify.Logger.Worker.Recording.{write_all, async_write-Records}
use proxify.Logger.Running.{LoggerState, started, Run}
use proxify.Logger.Running.Sequential.{started-IsSequential, unclosed}

module _ {W : Type 0} (lib : LogLib) (l : Logger W) (writer : OutputFileWriter W)
    (dump : Request → Bytes) (usable : IsUsable lib writer dump)
    (calm : (r : Response) → lib.fill r ≢ panic) (structured : l.s_writer ≡ some writer)
    (storeless : l.stores ≡ []) where
  -- For a logger with a structured writer and no stores, over libraries that dump every
  -- request, write every entry without a panic, and do not panic on a response: in every state
  -- that is reached with the writer open, in which the requests of the transactions that the
  -- worker took have readable bodies, what was given to the writer are exactly the entries of
  -- the abstract log of these transactions, in order, and the transactions of all that was
  -- logged are those, followed by the queued ones.
  pub started-Records :
      {w₀ : W} {s : LoggerState W}
      → Run lib l (started w₀) s
      → s.writer_closed ≡ false
      → All IsReadable s.channel.handled
      → (es : List HttpRequestResponseLog) × (s.world ≡ write_all lib writer es w₀)
        × Records lib l.options dump s.channel.handled es
        × (s.channel.handled ++ s.channel.queue ≡ all_transactions s.channel.logged)
  started-Records {w₀} {s} r open_ readable =
      let i = started-IsSequential lib l r in
      let (lines, es, ran, records) =
        async_write-Records lib l writer dump usable calm structured storeless s.channel.handled w₀
          readable in
      let same : s.world ≡ write_all lib writer es w₀ =
        ap (λ (q : List Bytes × W). q.1) (ok_injective (sym (unclosed lib l i open_) ∙ ran)) in
      (es, same, records, i.ordered.order)
