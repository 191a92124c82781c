-- ===== src/Go/Strings/Affixes.antt =====
-- Prefixes, suffixes and lengths of byte strings.
use proxify.Common.{
  sym, ap, ◌∙◌, ◌≢◌, Bool-cases, inl, inr, arith, ◌≡◌, refl, true, [], ◌∷◌, ◌++◌, ==_refl,
}
use proxify.Go.Strings.{Bytes, has_prefix, drop_prefix, has_suffix, trim_suffix}
use mathlib.Core.List.{reverse, reverse-append, reverse-reverse}

pub has_prefix-append : (p s : Bytes) → has_prefix (p ++ s) p ≡ true
unfolding has_prefix
has_prefix-append [] s = refl
has_prefix-append (c ∷ p) s = rw (==_refl c) (has_prefix-append p s)

drop_prefix-append : (p s : Bytes) → drop_prefix (p ++ s) p ≡ s
unfolding drop_prefix
drop_prefix-append [] s = refl
drop_prefix-append (c ∷ p) s = drop_prefix-append p s

pub has_suffix-append : (t s : Bytes) → has_suffix (s ++ t) t ≡ true
unfolding has_suffix
has_suffix-append t s = rw (reverse-append s t) (has_prefix-append (reverse t) (reverse s))

pub trim_suffix-append : (t s : Bytes) → trim_suffix (s ++ t) t ≡ s
trim_suffix-append t s =
    unfold trim_suffix in
    rw (has_suffix-append t s, reverse-append s t, drop_prefix-append) (reverse-reverse s)

prefix_rest : (s p : Bytes) → has_prefix s p ≡ true → (r : Bytes) × (s ≡ p ++ r)
unfolding has_prefix
prefix_rest s [] h = (s, refl)
prefix_rest [] (c ∷ p) h = cc
prefix_rest (d ∷ s) (c ∷ p) h = let (r, e) = prefix_rest s p (ground arith) in (r, ground arith)

suffix_rest : (s t : Bytes) → has_suffix s t ≡ true → (r : Bytes) × (s ≡ r ++ t)
unfolding has_suffix
suffix_rest s t h =
    let (r, e) = prefix_rest (reverse s) (reverse t) h in
    (
      reverse r,
      sym (reverse-reverse s)
          ∙ ap reverse e
          ∙ reverse-append (reverse t) r
          ∙ rw reverse-reverse refl,
    )

-- A suffix that a text does not have is not removed.
pub trim_suffix_other : (t s : Bytes) → ((rest : Bytes) → s ≢ rest ++ t) → trim_suffix s t ≡ s
unfolding trim_suffix
trim_suffix_other t s h = elim (Bool-cases (has_suffix s t)) [
  | inl ends ↦ let (r, e) = suffix_rest s t ends in absurd (h r e)
  | inr other ↦ rw other refl
]
