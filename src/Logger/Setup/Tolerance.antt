-- ===== src/Logger/Setup/Tolerance.antt =====
-- `NewLogger` of pkg/logger/logger.go gives a logger whatever of its parts fails.
use proxify.Common.{
  ◌≡◌, ◌≢◌, refl, sym, ap, append-nil, none, some, List, [], ◌∷◌, ◌++◌, arith, is_empty,
  if◌then◌else◌, Bool-cases, inl, inr,
}
use proxify.Go.Outcome.{Outcome, ok, err, panic, Succeeds, >>=-IsOk}
use proxify.Go.Strings.{Bytes}
use proxify.Logger.Env.{
  Store, OutputFileWriter, Logger, OptionsLogger, ElasticOptions, KafkaOptions,
}
use proxify.Logger.Setup.{
  Constructors, new_output_file_writer, new_logger, pointed, add_store, set_writer,
}

module _ {W : Type 0} (c : Constructors W) where
  -- No constructor panics.
  pub record IsCalm : Type 0 where
    pub elastic : (o : ElasticOptions) → c.new_elastic o ≢ panic
    pub kafka : (o : KafkaOptions) → c.new_kafka o ≢ panic
    pub file : (p : Bytes) → c.new_file p ≢ panic
    pub jsonl : (p : Bytes) → c.new_json_lines_writer p ≢ panic
    pub yaml : (p : Bytes) → c.new_yaml_multi_doc_writer p ≢ panic

  -- A client that the options ask for and that can be made.
  abbrev pub has_client : Bytes → Outcome (Store W) → List (Store W)
  has_client [] made = []
  has_client (b ∷ addr) (ok s) = s ∷ []
  has_client (b ∷ addr) _ = []

  abbrev pub made_client : Outcome (Store W) → List (Store W)
  made_client (ok s) = s ∷ []
  made_client _ = []

  add_store-eq :
      (stores : List (Store W)) (m : Outcome (Store W))
      → m ≢ panic
      → add_store c stores m ≡ ok (stores ++ made_client m)
  add_store-eq stores (ok s) h = refl
  add_store-eq stores (err e) h = ap ok (sym (append-nil stores))
  add_store-eq stores panic h = absurd (h refl)

  client-eq :
      (addr : Bytes) (stores : List (Store W)) (m : Outcome (Store W))
      → m ≢ panic
      → (if is_empty addr then ok stores else add_store c stores m)
        ≡ ok (stores ++ has_client addr m)
  client-eq [] stores m h = ap ok (sym (append-nil stores))
  client-eq (b ∷ addr) stores (ok s) h = refl
  client-eq (b ∷ addr) stores (err e) h = ap ok (sym (append-nil stores))
  client-eq (b ∷ addr) stores panic h = absurd (h refl)

  set_writer-Succeeds :
      (m : Outcome (OutputFileWriter W)) → m ≢ panic → Succeeds (λ _. Unit {0}) (set_writer c m)
  set_writer-Succeeds (ok w) h = (some w, refl, tt)
  set_writer-Succeeds (err e) h = (none, refl, tt)
  set_writer-Succeeds panic h = absurd (h refl)

  new_output_file_writer-ne-panic :
      IsCalm → (format path : Bytes) → new_output_file_writer c format path ≢ panic
  unfolding new_output_file_writer
  new_output_file_writer-ne-panic calm format path = ground (arith, calm.jsonl path, calm.yaml path)

  writer-Succeeds :
      (o : OptionsLogger)
      → IsCalm
      → Succeeds
          (λ _. Unit {0})
          (if is_empty o.output_format
            then ok none
            else set_writer c (new_output_file_writer c o.output_format o.output_file))
  writer-Succeeds o calm = elim (Bool-cases (is_empty o.output_format)) [
    | inl unset ↦ (none, rw unset refl, tt)
    | inr set ↦
        rw set (
          set_writer-Succeeds _
            (new_output_file_writer-ne-panic calm o.output_format o.output_file))
  ]

  -- When the pointers to the options of elastic and kafka are set and no constructor panics,
  -- `new_logger` gives a logger with the options, whatever constructors fail: its stores are
  -- the elastic client and the kafka client, where an address asks for them and they can be
  -- made, and then the file client, where it can be made.
  pub new_logger-stores :
      (o : OptionsLogger) (elastic : ElasticOptions) (kafka : KafkaOptions)
      → o.elastic ≡ some elastic
      → o.kafka ≡ some kafka
      → IsCalm
      → (l : Logger W) × (new_logger c o ≡ ok l)
        × (l.options ≡ o)
        × (l.stores
            ≡ (has_client elastic.addr (c.new_elastic elastic)
                ++ has_client kafka.addr (c.new_kafka kafka))
              ++ made_client (c.new_file o.output_folder))
  unfolding new_logger
  new_logger-stores o elastic kafka he hk calm =
      let (writer, made, _) = writer-Succeeds o calm in
      let s₁ = has_client elastic.addr (c.new_elastic elastic) in
      let s₂ = s₁ ++ has_client kafka.addr (c.new_kafka kafka) in
      let s₃ = s₂ ++ made_client (c.new_file o.output_folder) in
      let l : Logger W = record { options = o; stores = s₃; s_writer = writer } in
      let same : new_logger c o ≡ ok l =
        simp (he, hk, new_logger)
          (rw (client-eq elastic.addr [] (c.new_elastic elastic) (calm.elastic elastic)) (
            rw (client-eq kafka.addr s₁ (c.new_kafka kafka) (calm.kafka kafka)) (
              rw (add_store-eq s₂ (c.new_file o.output_folder) (calm.file o.output_folder))
                (rw made refl)))) in
      (l, same, refl, refl)

-- A logger that is made has the options that it was asked for.
pub new_logger-options :
    {W : Type 0} (c : Constructors W) (o : OptionsLogger) (l : Logger W)
    → new_logger c o ≡ ok l
    → l.options ≡ o
unfolding new_logger
new_logger-options c o l h =
    let (elastic, h₀, _) = >>=-IsOk _ (pointed o.elastic) h in
    let (s₁, h₁, _) =
      >>=-IsOk _ (if is_empty elastic.addr then ok [] else add_store c [] (c.new_elastic elastic))
        h₀ in
    let (kafka, h₁', _) = >>=-IsOk _ (pointed o.kafka) h₁ in
    let (s₂, h₂, _) =
      >>=-IsOk _ (if is_empty kafka.addr then ok s₁ else add_store c s₁ (c.new_kafka kafka)) h₁' in
    let (s₃, h₃, _) = >>=-IsOk _ (add_store c s₂ (c.new_file o.output_folder)) h₂ in
    let (writer, h₄, _) =
      >>=-IsOk _
        (if is_empty o.output_format
          then ok none
          else set_writer c (new_output_file_writer c o.output_format o.output_file))
        h₃ in
    ground (arith, h₄)
