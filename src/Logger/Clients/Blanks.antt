-- ===== src/Logger/Clients/Blanks.antt =====
-- What reaches kafka: with the client of pkg/logger/kafka/kafka.go as the only store, whatever the
-- worker handles.
use proxify.Common.{
  true, false, ℕ, zero, suc, ◌+◌, ◌*◌, ◌≤◌, ◌≡◌, sym, ap, ◌∙◌, Option, none, some, List, [], ◌∷◌,
  inl, inr, Option-cases, All, arith, length,
}
use proxify.Go.Outcome.{Outcome, ok, >>=-IsOk, ok_injective}
use proxify.Go.Strings.{Bytes, codes}
use proxify.Go.Http.{Request}
use proxify.Types.{HttpTransaction, ResponseChain}
use proxify.Logger.Env.{OptionsLogger, Logger, LogLib}
use proxify.Logger.Storing.{limit_size, part_suffix, format_transaction, save_all, store_writer}
use proxify.Logger.Storing.Formatting.{format_transaction-data_string}
use proxify.Logger.Worker.{write_structured, write_stores, write_transaction, async_write}
use proxify.Logger.Worker.Inversion.{write_transaction-Round}
use proxify.Logger.Clients.{kafka_save, kafka_store}

abbrev pub IsBlank : HttpTransaction → Type 0
IsBlank t = t.data_bytes ≡ []

module _ {W : Type 0} (lib : LogLib) (o : OptionsLogger)
    (send : Bytes → Bytes → W → Outcome (Unit {0}) × W) (topic : Bytes) where
  -- A logger whose one store is the kafka client.
  abbrev pub kafka_logger : Logger W
  kafka_logger = record { options = o; stores = kafka_store send topic ∷ []; s_writer = none }

  -- A line end, cut to the maximal size.
  abbrev pub blank : Bytes
  blank = limit_size lib o.max_size (codes "\n")

  -- The world after so many line ends were sent.
  abbrev pub blanks : ℕ → W → W
  blanks zero w = w
  blanks (suc n) w = blanks n (send topic blank w).1

  blanks-add : (m n : ℕ) (w : W) → blanks n (blanks m w) ≡ blanks (m + n) w
  blanks-add zero n w = ap (λ k. blanks k w) (let e : n ≡ zero + n = omega arith in e)
  blanks-add (suc m) n w =
      blanks-add m n (send topic blank w).1
      ∙ ap (λ k. blanks k w) (let e : suc (m + n) ≡ suc m + n = omega arith in e)

  save_all-sends :
      (t : HttpTransaction) (w v : W)
      → save_all (kafka_store send topic ∷ []) t w ≡ ok v
      → v ≡ (send topic t.data_string w).1
  unfolding save_all kafka_save
  save_all-sends t w v h = ground arith

  -- Nothing is sent, or one line end.
  store_writer-blank :
      (t : HttpTransaction) (w v : W)
      → IsBlank t
      → store_writer lib kafka_logger t w ≡ ok v
      → (n : ℕ) × (n ≤ 1) × (v ≡ blanks n w)
  unfolding store_writer
  store_writer-blank t w v h k = elim (Option-cases (part_suffix o t.userdata.has_response)) [
    | inl out ↦ (0, omega arith, sym (ok_injective (rw (out, store_writer) at k)))
    | inr (suffix, kept) ↦ (
      1,
      omega arith,
      save_all-sends (format_transaction lib o suffix t) w v (rw (kept, store_writer) at k)
          ∙ ap (λ s. (send topic s w).1) (format_transaction-data_string lib o suffix t h),
    )
  ]

  -- The parts of a transaction.
  abbrev asked : HttpTransaction → Bytes → HttpTransaction
  asked t dump = record t { raw_data = dump; userdata = record t.userdata { has_response = false } }

  abbrev answered : HttpTransaction → ResponseChain → HttpTransaction
  answered t c = record t {
    raw_data = c.full_response;
    userdata = record t.userdata { has_response = true };
  }

  write_stores-blank :
      (t : HttpTransaction) (dump : Bytes) (chain : Option ResponseChain) (w v : W)
      → IsBlank t
      → write_stores lib kafka_logger t dump chain w ≡ ok v
      → (n : ℕ) × (n ≤ 2) × (v ≡ blanks n w)
  unfolding write_stores
  write_stores-blank t dump none w v h k =
      let (w₁, last, first) = >>=-IsOk _ (store_writer lib kafka_logger (asked t dump) w) k in
      let (n, few, sent) = store_writer-blank (asked t dump) w w₁ h first in
      (n, omega arith, sym (ok_injective last) ∙ sent)
  write_stores-blank t dump (some c) w v h k =
      let (w₁, last, first) = >>=-IsOk _ (store_writer lib kafka_logger (asked t dump) w) k in
      let (n, few, sent) = store_writer-blank (asked t dump) w w₁ h first in
      let (m, few', sent') = store_writer-blank (answered t c) w₁ v h last in
      (n + m, omega arith, sent' ∙ ap (blanks m) sent ∙ blanks-add n m w)

  write_transaction-blank :
      (t : HttpTransaction) (lines : List Bytes) (w v : W)
      → IsBlank t
      → write_transaction lib kafka_logger t w ≡ ok (lines, v)
      → (n : ℕ) × (n ≤ 2) × (v ≡ blanks n w)
  unfolding write_structured
  write_transaction-blank t lines w v b h =
      elim (write_transaction-Round lib kafka_logger t lines w v h) [
        | inl same ↦ (0, omega arith, same)
        | inr r ↦
            let (n, few, sent) =
              write_stores-blank (record t { request = some r.after }) r.dump r.chain r.halfway v b
                r.stored in
            (
              n,
              few,
              sent
                  ∙ ap (blanks n) (ap (λ (p : Request × W). p.1) (sym (ok_injective r.structured))),
            )
      ]

  -- For a logger whose one store is the kafka client, without a structured writer: when the
  -- worker takes any list of transactions with empty `Data` fields without a panic, all that it
  -- sent are line ends, cut to the maximal size, at most two for each transaction.
  pub async_write-blanks :
      (ts : List HttpTransaction) (lines : List Bytes) (w v : W)
      → All IsBlank ts
      → async_write lib kafka_logger ts w ≡ ok (lines, v)
      → (n : ℕ) × (n ≤ 2 * length ts) × (v ≡ blanks n w)
  unfolding async_write write_structured
  async_write-blanks [] lines w v _ h =
      (0, omega arith, ap (λ (p : List Bytes × W). p.1) (sym (ok_injective h)))
  async_write-blanks (t ∷ ts) lines w v (b, bs) h =
      let ((printed, w₁), rest, did) = >>=-IsOk _ (write_transaction lib kafka_logger t w) h in
      let ((more, w₂), last, went) = >>=-IsOk _ (async_write lib kafka_logger ts w₁) rest in
      let (m, few, sent) = async_write-blanks ts more w₁ w₂ bs went in
      let (n, few', first) = write_transaction-blank t printed w w₁ b did in
      (
        n + m,
        omega arith,
        ap (λ (p : List Bytes × W). p.1) (sym (ok_injective last))
            ∙ sent
            ∙ ap (blanks m) first
            ∙ blanks-add n m w,
      )
