-- ===== src/Logger/Worker/Inversion.antt =====
-- What is behind a round of `AsyncWrite` that ends without a panic.
use proxify.Common.{◌≡◌, sym, ap, ◌∙◌, Option, some, List, [], ◌++◌, ◌⊎◌, inl, inr, Option-cases}
use proxify.Go.Outcome.{Outcome, ok, ◌>>=◌, >>=-IsOk, ok_injective}
use proxify.Go.Strings.{Bytes}
use proxify.Go.Http.{Request, dump_request}
use proxify.Types.{HttpTransaction, ResponseChain}
use proxify.Logger.Env.{Logger, LogLib}
use proxify.Logger.Worker.{
  or_nothing, debug_log_request, fill_chain, debug_chain, write_structured, write_stores,
  write_round, write_transaction,
}

module _ {W : Type 0} (lib : LogLib) (l : Logger W) where
  -- The structured writer has had its turn, and then the stores.
  pub record Round (t : HttpTransaction) (w v : W) : Type 0 where
    pub seen : Request
    pub after : Request
    pub chain : Option ResponseChain
    pub dump : Bytes
    pub halfway : W
    pub structured : write_structured lib l t.userdata seen chain w ≡ ok (after, halfway)
    pub stored : write_stores lib l (record t { request = some after }) dump chain halfway ≡ ok v

  -- The end of a round.
  abbrev finish :
      List Bytes
      → HttpTransaction
      → Bytes
      → Option ResponseChain
      → Request × W
      → Outcome (List Bytes × Request × W)
  finish printed t dump chain p = do
    w₂ ← write_stores lib l (record t { request = some p.0 }) dump chain p.1
    ok (printed, p.0, w₂)

  finish-Round :
      (t : HttpTransaction) (seen : Request) (chain : Option ResponseChain) (printed : List Bytes)
      (dump : Bytes) (lines : List Bytes) (left : Request) (w v : W)
      → (write_structured lib l t.userdata seen chain w >>= finish printed t dump chain)
        ≡ ok (lines, left, v)
      → Round t w v
  finish-Round t seen chain printed dump lines left w v h =
      let ((after, w₁), rest, wrote) =
        >>=-IsOk _ (write_structured lib l t.userdata seen chain w) h in
      let (w₂, last, stored) =
        >>=-IsOk _ (write_stores lib l (record t { request = some after }) dump chain w₁) rest in
      let e : Outcome.ok (printed, after, w₂) ≡ ok (lines, left, v) = last in
      record {
        seen = seen;
        after = after;
        chain = chain;
        dump = dump;
        halfway = w₁;
        structured = wrote;
        stored = stored ∙ ap (λ (p : List Bytes × Request × W). Outcome.ok p.2) (ok_injective e);
      }

  write_round-Round :
      (t : HttpTransaction) (req left : Request) (lines : List Bytes) (w v : W)
      → write_round lib l t req w ≡ ok (lines, left, v)
      → Round t w v
  unfolding write_round
  write_round-Round t req left lines w v h =
      let (dumped, after) = dump_request lib.http req in
      let (dump, h₁, _) = >>=-IsOk _ (or_nothing dumped) h in
      let ((printed, req₂), h₂, _) = >>=-IsOk _ (debug_log_request lib l.options dump after) h₁ in
      let (chain, h₃, _) = >>=-IsOk _ (fill_chain lib t.response) h₂ in
      finish-Round t req₂ chain (printed ++ debug_chain lib l.options chain) dump lines left w v h₃

  pub write_transaction-Round :
      (t : HttpTransaction) (lines : List Bytes) (w v : W)
      → write_transaction lib l t w ≡ ok (lines, v)
      → (v ≡ w) ⊎ Round t w v
  unfolding write_transaction
  write_transaction-Round t lines w v h = elim (Option-cases t.request) [
    | inl absent ↦
        let e : Outcome.ok ([], w) ≡ ok (lines, v) = rw (absent, write_transaction) at h in
        inl (sym (ap (λ p. p.1) (ok_injective e)))
    | inr (req, present) ↦
        let ((printed, after, w'), last, went) =
          >>=-IsOk _ (write_round lib l t req w) (rw (present, write_transaction) at h) in
        let e : Outcome.ok (printed, w') ≡ ok (lines, v) = last in
        inr (
          write_round-Round t req after printed w v
            (went ∙ ap (λ x. ok (printed, after, x)) (ap (λ p. p.1) (ok_injective e))))
  ]
