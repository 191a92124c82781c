-- ===== src/Swaggergen/SafeResponses.antt =====
-- Stored responses of pkg/swaggergen without nil pointers: what the updates of pkg/swaggergen/response.go
-- and content.go need, and keep.
use proxify.Common.{
  ◌≡◌, ◌≢◌, refl, ℕ, Option, none, some, List, [], ◌∷◌, arith, All, Option-cases, Bool-cases, inl,
  inr, ◌==◌,
}
use proxify.Go.Outcome.{Outcome, panic, Succeeds, Succeeds->>=, Outcome-cases}
use proxify.Go.Strings.{Bytes, codes, str_eq}
use proxify.Go.Maps.{Map, lookup, insert}
use proxify.Go.Http.{Response, Header, Body, header_get, read_all}
use proxify.Swaggergen.Schemas.{Json, schema, interface_to_type, data_properties, new_schema}
use proxify.Swaggergen.Responses.{
  Content, SpecResponse, new_content, update_content, new_response, update_response, content_for,
}
use proxify.Swaggergen.Methods.{Method, Responses, SpecPath, response_at, set_response}
use proxify.Swaggergen.Specs.{Spec}

abbrev pub AllValues : {K V : Type 0} → (V → Type 0) → List (K × V) → Type 0
AllValues Q m = All (λ e. Q e.1) m

module _ {V : Type 0} (Q : V → Type 0) where
  pub AllValues-insert :
      (k : Bytes) (v : V) (m : Map V) → Q v → AllValues Q m → AllValues Q (insert k v m)
  unfolding insert
  AllValues-insert k v [] q h = (q, tt)
  AllValues-insert k v ((j, w) ∷ m) q (q', h) = ground (arith, AllValues-insert k v m q h)

  pub AllValues-lookup : (k : Bytes) (v : V) (m : Map V) → lookup k m ≡ some v → AllValues Q m → Q v
  unfolding lookup
  AllValues-lookup k v [] e h = cc
  AllValues-lookup k v ((j, w) ∷ m) e (q, h) = elim (Bool-cases (str_eq j k)) [
    | inl same ↦ let f : w ≡ v = ground arith in rw f at q
    | inr other ↦ AllValues-lookup k v m (ground arith) h
  ]

module _ (Q : Option SpecResponse → Type 0) where
  pub AllValues-set_response :
      (k : ℕ) (r : Option SpecResponse) (rs : Responses)
      → Q r
      → AllValues Q rs
      → AllValues Q (set_response k r rs)
  unfolding set_response
  AllValues-set_response k r [] q h = (q, tt)
  AllValues-set_response k r ((j, s) ∷ rs) q (q', h) =
      ground (arith, AllValues-set_response k r rs q h)

  pub AllValues-response_at :
      (k : ℕ) (r : Option SpecResponse) (rs : Responses)
      → response_at k rs ≡ some r
      → AllValues Q rs
      → Q r
  unfolding response_at
  AllValues-response_at k r [] e h = cc
  AllValues-response_at k r ((j, s) ∷ rs) e (q, h) = elim (Bool-cases (j == k)) [
    | inl same ↦ let f : s ≡ r = ground arith in rw f at q
    | inr other ↦ AllValues-response_at k r rs (ground arith) h
  ]

-- No nil is stored.
abbrev pub IsSafeResponse : Option SpecResponse → Type 0
IsSafeResponse none = ⊥
IsSafeResponse (some r) = AllValues (λ c. c ≢ none) r.content

abbrev pub IsSafeResponses : Option Responses → Type 0
IsSafeResponses m = (rs : Responses) × (m ≡ some rs) × AllValues IsSafeResponse rs

abbrev pub IsSafeMethod : Method → Type 0
IsSafeMethod m = IsSafeResponses m.responses

abbrev pub IsSafePath : SpecPath → Type 0
IsSafePath p = AllValues IsSafeMethod p

abbrev pub IsSafe : Spec → Type 0
IsSafe s =
    (paths : Map SpecPath) × (s.paths ≡ some paths) × AllValues IsSafePath paths × (s.info ≢ none)

-- A response has a header and a body, if there is a response.
abbrev pub IsWhole : Option Response → Type 0
IsWhole none = Unit
IsWhole (some res) = (h : Header) × (b : Body) × (res.header ≡ some h) × (res.body ≡ some b)

module _ (unmarshal : Bytes → Outcome Json) (calm : (s : Bytes) → unmarshal s ≢ panic) where
  pub new_schema-Succeeds : (b : Body) → Succeeds (λ _. Unit {0}) (new_schema unmarshal (some b))
  unfolding new_schema read_all
  new_schema-Succeeds b = elim (Option-cases b.failure) [
    | inr (e, failed) ↦ (none, ground arith, tt)
    | inl whole ↦ elim (Outcome-cases (unmarshal b.content)) [
      | inl (e, failed) ↦ (none, ground arith, tt)
      | inr (inl panicked) ↦ absurd (calm b.content panicked)
      | inr (inr (value, made)) ↦ (
        some (schema (interface_to_type value) (data_properties value) []),
        rw (whole, new_schema, made) refl,
        tt,
      )
    ]
  ]

  new_content-Succeeds :
      (res : Response) → IsWhole (some res) → Succeeds (λ c. c ≢ none) (new_content unmarshal res)
  unfolding new_content
  new_content-Succeeds res (h, b, hh, hb) =
      rw (hb, new_content)
        (Succeeds->>= (new_schema-Succeeds b) (λ s _. (some (record { schema = s }), refl, cc)))

  update_content-Succeeds :
      (c : Option Content) (res : Response)
      → c ≢ none
      → IsWhole (some res)
      → Succeeds (λ c. c ≢ none) (update_content unmarshal c res)
  unfolding update_content
  update_content-Succeeds none res n w = absurd (n refl)
  update_content-Succeeds (some old) res n (h, b, hh, hb) =
      rw (hb, update_content)
        (Succeeds->>= (new_schema-Succeeds b) (λ s _. (some (record old { schema = s }), refl, cc)))

  content_for-Succeeds :
      (contents : Map (Option Content)) (key : Bytes) (res : Response)
      → AllValues (λ c. c ≢ none) contents
      → IsWhole (some res)
      → Succeeds (λ c. c ≢ none) (content_for unmarshal contents key res)
  unfolding content_for
  content_for-Succeeds contents key res safe w = elim (Option-cases (lookup key contents)) [
    | inl new ↦ rw (new, content_for) (new_content-Succeeds res w)
    | inr (c, known) ↦
        rw (known, content_for)
          (update_content-Succeeds c res
            (AllValues-lookup (λ c. c ≢ none) key c contents known safe) w)
  ]

  pub new_response-Succeeds :
      (res : Response) → IsWhole (some res) → Succeeds IsSafeResponse (new_response unmarshal res)
  unfolding new_response
  new_response-Succeeds res w =
      let (h, b, hh, hb) = w in
      rw (hh, new_response)
        (Succeeds->>= (new_content-Succeeds res w) (λ c n. (
          some _,
          refl,
          AllValues-insert (λ c. c ≢ none) (header_get (codes "Content-Type") h) c [] n tt,
        )))

  pub update_response-Succeeds :
      (r : Option SpecResponse) (res : Response)
      → IsSafeResponse r
      → IsWhole (some res)
      → Succeeds IsSafeResponse (update_response unmarshal r res)
  unfolding update_response
  update_response-Succeeds none res safe w = absurd safe
  update_response-Succeeds (some old) res safe w =
      let (h, b, hh, hb) = w in
      let key = header_get (codes "Content-Type") h in
      rw (hh, update_response)
        (Succeeds->>= (content_for-Succeeds old.content key res safe w)
          (λ c n. (some _, refl, AllValues-insert (λ c. c ≢ none) key c old.content n safe)))
