-- ===== src/Runner/Outputs.antt =====
-- The name of the output file that internal/runner/options.go settles on.
use proxify.Common.{
  ℕ, zero, suc, ◌≡◌, ◌≢◌, refl, Bool, true, false, ◌||◌, [], ◌∷◌, ◌++◌, All, arith, Bool-cases, inl,
  inr, is_empty,
}
use proxify.Go.Strings.{Bytes, codes, has_prefix, replace_from, replace_text}

-- Whether a text occurs in another.
unfoldable pub occurs : Bytes → Bytes → Bool
occurs old [] = is_empty old
occurs old (c ∷ s) = has_prefix (c ∷ s) old || occurs old s

abbrev jsonl : Bytes
unfolding codes
jsonl = codes "jsonl"

abbrev yaml : Bytes
unfolding codes
yaml = codes "yaml"

replace-found :
    (c : ℕ) (s : Bytes)
    → has_prefix (c ∷ s) jsonl ≡ true
    → replace_from jsonl yaml 0 (c ∷ s) ≡ yaml ++ replace_from jsonl yaml 4 s
unfolding replace_from codes
replace-found c s h = rw (h, replace_from) refl

replace-missing :
    (c : ℕ) (s : Bytes)
    → has_prefix (c ∷ s) jsonl ≡ false
    → replace_from jsonl yaml 0 (c ∷ s) ≡ c ∷ replace_from jsonl yaml 0 s
unfolding replace_from codes
replace-missing c s h = rw (h, replace_from) refl

replace-skipped :
    (skipped c : ℕ) (s : Bytes)
    → replace_from jsonl yaml (suc skipped) (c ∷ s) ≡ replace_from jsonl yaml skipped s
unfolding replace_from
replace-skipped skipped c s = refl

-- A text without 'y' that begins the result begins what was there.
prefix_kept :
    (p s : Bytes)
    → All (λ c. c ≢ b'y') p
    → has_prefix (replace_from jsonl yaml 0 s) p ≡ true
    → has_prefix s p ≡ true
unfolding has_prefix codes
prefix_kept [] s _ h = ground arith
prefix_kept (q ∷ p) [] _ h = unfold replace_from in h
prefix_kept (q ∷ p) (c ∷ s) (hq, hp) h = elim (Bool-cases (has_prefix (c ∷ s) jsonl)) [
  | inl found ↦ let e = rw (replace-found c s found) at h in ground (arith, e)
  | inr missing ↦
      let e = rw (replace-missing c s missing) at h in ground (arith, e, prefix_kept p s hp)
]

no_jsonl_from : (skipped : ℕ) (s : Bytes) → occurs jsonl (replace_from jsonl yaml skipped s) ≡ false
unfolding occurs has_prefix codes
no_jsonl_from skipped [] = unfold replace_from in refl
no_jsonl_from (suc skipped) (c ∷ s) = rw (replace-skipped skipped c s) (no_jsonl_from skipped s)
no_jsonl_from zero (c ∷ s) = elim (Bool-cases (has_prefix (c ∷ s) jsonl)) [
  | inl found ↦ rw (replace-found c s found) (no_jsonl_from 4 s)
  | inr missing ↦
      rw (replace-missing c s missing)
        (ground (arith, missing, no_jsonl_from 0 s, prefix_kept (codes "sonl") s (omega arith)))
]

pub replace_text-no_jsonl :
    (s : Bytes) → occurs (codes "jsonl") (replace_text (codes "jsonl") (codes "yaml") s) ≡ false
unfolding replace_text codes
replace_text-no_jsonl s = no_jsonl_from 0 s

pub replace_text-filled :
    (s : Bytes)
    → is_empty s ≡ false
    → is_empty (replace_text (codes "jsonl") (codes "yaml") s) ≡ false
unfolding replace_text codes
replace_text-filled [] h = unfold replace_from in h
replace_text-filled (c ∷ s) h = elim (Bool-cases (has_prefix (c ∷ s) jsonl)) [
  | inl found ↦ rw (replace-found c s found) refl
  | inr missing ↦ rw (replace-missing c s missing) refl
]
