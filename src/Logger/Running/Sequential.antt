-- ===== src/Logger/Running/Sequential.antt =====
-- A running logger against the worker alone: whatever the turns, the world is what `async_write`
-- makes of the transactions that were taken, in the order in which they were logged.
use proxify.Common.{
  All, ◌≡◌, sym, refl, ap, false, List, [], ◌∷◌, ◌++◌, arith, append-nil, append_assoc,
  if◌then◌else◌, Bool-cases, inl, inr, ◌∙◌,
}
use proxify.Go.Outcome.{Outcome, ok, >>=-IsOk, ok_injective}
use proxify.Go.Strings.{Bytes}
use proxify.Types.{HttpTransaction}
use proxify.Logger.Env.{Logger, LogLib}
use proxify.Logger.Queue.{receive, close, all_transactions, IsOrdered, Step-IsOrdered}
use proxify.Logger.Worker.{write_transaction, async_write}
use proxify.Logger.Running.{
  LoggerState, started, Turn, call, work, close_first, close_queue, Run, here, later, close_writer,
}

module _ {W : Type 0} (lib : LogLib) (l : Logger W) where
  -- One transaction after all of a queue.
  async_write-snoc :
      (ts : List HttpTransaction) (t : HttpTransaction) (w v u : W) (lines more : List Bytes)
      → async_write lib l ts w ≡ ok (lines, v)
      → write_transaction lib l t v ≡ ok (more, u)
      → async_write lib l (ts ++ (t ∷ [])) w ≡ ok (lines ++ more, u)
  unfolding async_write
  async_write-snoc [] t w v u lines more h k =
      let e : ([], w) ≡ (lines, v) = ok_injective h in
      let e₁ : [] ≡ lines = ap (λ p. p.0) e in
      let e₂ : w ≡ v = ap (λ p. p.1) e in rw (e₂, k, ← e₁, append-nil) refl
  async_write-snoc (s ∷ ts) t w v u lines more h k =
      let ((first, w₁), rest, done) = >>=-IsOk _ (write_transaction lib l s w) h in
      let ((second, w₂), last, went) = >>=-IsOk _ (async_write lib l ts w₁) rest in
      let e : (first ++ second, w₂) ≡ (lines, v) = ok_injective last in
      let e₁ : first ++ second ≡ lines = ap (λ p. p.0) e in
      let e₂ : w₂ ≡ v = ap (λ p. p.1) e in
      rw (done, async_write)
        (rw (async_write-snoc ts t w₁ w₂ u second more went (rw e₂ k))
          (rw (← e₁, append_assoc) refl))

  -- The transactions taken before `Close` closed the writer, and those taken after it.
  pub record IsSequential (w₀ : W) (s : LoggerState W) : Type 0 where
    pub early : List HttpTransaction
    pub late : List HttpTransaction
    pub lines : List Bytes
    pub more : List Bytes
    pub halfway : W
    pub taken : s.channel.handled ≡ early ++ late
    pub printed : s.printed ≡ lines ++ more
    pub ran : async_write lib l early w₀ ≡ ok (lines, halfway)
    pub went_on :
        async_write lib l late (if s.writer_closed then close_writer l halfway else halfway)
        ≡ ok (more, s.world)
    pub undivided : s.writer_closed ≡ false → late ≡ []
    pub ordered : IsOrdered s.channel

  IsSequential-started : (w : W) → IsSequential w (started w)
  unfolding async_write
  IsSequential-started w = record {
    early = [];
    late = [];
    lines = [];
    more = [];
    halfway = w;
    taken = refl;
    printed = refl;
    ran = refl;
    went_on = refl;
    undivided = λ e. refl;
    ordered = record { order = refl; bounded = omega arith };
  }

  -- With the writer open, all was taken before.
  pub unclosed :
      {w₀ : W} {s : LoggerState W}
      → IsSequential w₀ s
      → s.writer_closed ≡ false
      → async_write lib l s.channel.handled w₀ ≡ ok (s.printed, s.world)
  unfolding async_write
  unclosed {w₀} {s} i open_ =
      let none_late : i.late ≡ [] = i.undivided open_ in
      let went : Outcome.ok ([], i.halfway) ≡ ok (i.more, s.world) =
        rw none_late at (rw open_ at i.went_on) in
      let e : ([], i.halfway) ≡ (i.more, s.world) = ok_injective went in
      let e₁ : [] ≡ i.more = ap (λ p. p.0) e in
      let e₂ : i.halfway ≡ s.world = ap (λ p. p.1) e in
      rw (i.taken, none_late, append-nil, i.ran, i.printed, ← e₁, append-nil, e₂) refl

  Turn-IsSequential :
      {w₀ : W} {s u : LoggerState W} → Turn lib l s u → IsSequential w₀ s → IsSequential w₀ u
  unfolding async_write
  Turn-IsSequential (call s c step same open_) i = record {
    early = i.early;
    late = i.late;
    lines = i.lines;
    more = i.more;
    halfway = i.halfway;
    taken = same ∙ i.taken;
    printed = i.printed;
    ran = i.ran;
    went_on = i.went_on;
    undivided = i.undivided;
    ordered = Step-IsOrdered step i.ordered;
  }
  Turn-IsSequential (close_queue s shut open_) i = record {
    early = i.early;
    late = i.late;
    lines = i.lines;
    more = i.more;
    halfway = i.halfway;
    taken = i.taken;
    printed = i.printed;
    ran = i.ran;
    went_on = i.went_on;
    undivided = i.undivided;
    ordered = Step-IsOrdered (close s.channel open_) i.ordered;
  }
  Turn-IsSequential (close_first s open_) i = record {
    early = s.channel.handled;
    late = [];
    lines = s.printed;
    more = [];
    halfway = s.world;
    taken = sym (append-nil _);
    printed = sym (append-nil _);
    ran = unclosed i open_;
    went_on = refl;
    undivided = λ e. refl;
    ordered = i.ordered;
  }
  Turn-IsSequential (work s t rest lines w queued did) i = elim (Bool-cases s.writer_closed) [
    | inl shut ↦ record {
      early = i.early;
      late = i.late ++ (t ∷ []);
      lines = i.lines;
      more = i.more ++ lines;
      halfway = i.halfway;
      taken = rw (i.taken, append_assoc) refl;
      printed = rw (i.printed, append_assoc) refl;
      ran = i.ran;
      went_on = async_write-snoc i.late t _ s.world w i.more lines i.went_on did;
      undivided = λ e. cc;
      ordered = Step-IsOrdered (receive s.channel t rest queued) i.ordered;
    }
    | inr open_ ↦ record {
      early = s.channel.handled ++ (t ∷ []);
      late = [];
      lines = s.printed ++ lines;
      more = [];
      halfway = w;
      taken = sym (append-nil _);
      printed = sym (append-nil _);
      ran = async_write-snoc s.channel.handled t _ s.world w s.printed lines (unclosed i open_) did;
      went_on = rw open_ refl;
      undivided = λ e. refl;
      ordered = Step-IsOrdered (receive s.channel t rest queued) i.ordered;
    }
  ]

  Run-IsSequential :
      {w₀ : W} {s u : LoggerState W} → IsSequential w₀ s → Run lib l s u → IsSequential w₀ u
  Run-IsSequential i here = i
  Run-IsSequential i (later r turn) = Turn-IsSequential turn (Run-IsSequential i r)

  Run-append : {s t u : LoggerState W} → Run lib l s t → Run lib l t u → Run lib l s u
  Run-append r here = r
  Run-append r (later q turn) = later (Run-append r q) turn

  -- In every state of a running logger that is reached: the transactions that the worker took
  -- are those before `Close` closed the writer and those after, with none after while the
  -- writer is open; what the worker printed, and the world, are what its loop alone makes of
  -- the first, and then, from the world in which the writer is closed, of the others; and what
  -- it took, followed by what is queued, are the transactions of all entries that were logged,
  -- in order, with at most 1000 queued.
  pub started-IsSequential :
      {w₀ : W} {s : LoggerState W} → Run lib l (started w₀) s → IsSequential w₀ s
  started-IsSequential {w₀} r = Run-IsSequential (IsSequential-started w₀) r

  -- A round for the transaction does not panic.
  abbrev pub IsCalm : HttpTransaction → Type 0
  IsCalm t =
      (w : W) → (lines : List Bytes) × (v : W) × (write_transaction lib l t w ≡ ok (lines, v))

  -- The worker alone, from any state: it empties the queue.
  drained :
      (queue : List HttpTransaction) (s : LoggerState W)
      → s.channel.queue ≡ queue
      → All IsCalm queue
      → (u : LoggerState W) × Run lib l s u
        × (u.channel.queue ≡ [])
        × (u.channel.logged ≡ s.channel.logged)
        × (u.writer_closed ≡ s.writer_closed)
  drained [] s h _ = (s, here, h, refl, refl)
  drained (t ∷ rest) s h (calm, calms) =
      let (lines, w, did) = calm s.world in
      let (u, run, empty, same, flag) = drained rest (worked lines w) refl calms in
      (u, Run-append (later here (work s t rest lines w h did)) run, empty, same, flag)
    where
      worked : List Bytes → W → LoggerState W
      worked lines w = record s {
        channel = record s.channel { queue = rest; handled = s.channel.handled ++ (t ∷ []) };
        printed = s.printed ++ lines;
        world = w;
      }

  -- From every state of a running logger that is reached with the writer open, when the rounds
  -- for the queued transactions do not panic: a state is reached in which the queue is empty,
  -- and the worker has printed, and made of the world, what its loop alone makes of the
  -- transactions of all that had been logged.
  pub started-drains :
      {w₀ : W} {s : LoggerState W}
      → Run lib l (started w₀) s
      → s.writer_closed ≡ false
      → All IsCalm s.channel.queue
      → (u : LoggerState W) × Run lib l s u
        × (u.channel.queue ≡ [])
        × (async_write lib l (all_transactions s.channel.logged) w₀ ≡ ok (u.printed, u.world))
  started-drains {w₀} {s} r open_ calms =
      let (u, run, empty, same, flag) = drained s.channel.queue s refl calms in
      let i = started-IsSequential (Run-append r run) in
      let e : u.channel.handled ≡ all_transactions s.channel.logged =
        rw (append-nil) at (rw empty at (rw same at i.ordered.order)) in
      (u, run, empty, rw (← e) (unclosed i (flag ∙ open_)))
