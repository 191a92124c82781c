-- ===== src/Util/Matching.antt =====
-- What the match helpers of pkg/util/util.go decide.
use proxify.Common.{
  ◌≡◌, ◌≢◌, ◌↔◌, Bool, true, ◌&&◌, List, [], ◌∷◌, arith, All, Bool-cases, inl, inr,
}
use proxify.Go.Outcome.{Outcome, ok}
use proxify.Go.Strings.{Bytes}
use proxify.Util.{and_all, eval_bool_slice, match_any_regex}

and_all_iff :
    (b : Bool) (bs : List Bool) → (and_all b bs ≡ true) ↔ ((b ≡ true) × All (λ c. c ≡ true) bs)
unfolding and_all
and_all_iff b [] = ground arith
and_all_iff b (c ∷ bs) = ground (arith, and_all_iff (b && c) bs)

-- `eval_bool_slice` is true exactly when its list is not empty and all of its members are true.
pub eval_bool_slice_iff :
    (bs : List Bool) → (eval_bool_slice bs ≡ true) ↔ ((bs ≢ []) × All (λ b. b ≡ true) bs)
unfolding eval_bool_slice
eval_bool_slice_iff [] = ground arith
eval_bool_slice_iff (b ∷ bs) = ground (arith, and_all_iff b (b ∷ bs))

-- Some expression of the list compiles and matches.
data AnyMatches (match_string : Bytes → Bytes → Outcome Bool) (s : Bytes)
    : List Bytes → Type 0 where
  here :
      {regex : Bytes} {regexes : List Bytes}
      → match_string regex s ≡ ok true
      → AnyMatches match_string s (regex ∷ regexes)
  later :
      {regex : Bytes} {regexes : List Bytes}
      → AnyMatches match_string s regexes
      → AnyMatches match_string s (regex ∷ regexes)

module _ (match_string : Bytes → Bytes → Outcome Bool) (s : Bytes) where
  match_any_regex_sound :
      (rs : List Bytes) → match_any_regex match_string rs s ≡ true → AnyMatches match_string s rs
  unfolding match_any_regex
  match_any_regex_sound [] h = cc
  match_any_regex_sound (r ∷ rs) h = elim (Bool-cases (match_any_regex match_string rs s)) [
    | inl e ↦ later (match_any_regex_sound rs e)
    | inr e ↦ here (ground arith)
  ]

  match_any_regex_complete :
      {rs : List Bytes} → AnyMatches match_string s rs → match_any_regex match_string rs s ≡ true
  unfolding match_any_regex
  match_any_regex_complete (here e) = rw (e, match_any_regex)
  match_any_regex_complete (later m) = ground (arith, match_any_regex_complete m)

  -- `match_any_regex` is true exactly when some expression of the list compiles and matches the
  -- string; one that does not compile counts as no match.
  match_any_regex_iff :
      (rs : List Bytes) → (match_any_regex match_string rs s ≡ true) ↔ AnyMatches match_string s rs
  match_any_regex_iff rs = (match_any_regex_sound rs, match_any_regex_complete)
