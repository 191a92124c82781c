-- ===== src/Go/Strings/Parts.antt =====
-- The last part of a split, and a split that is joined with nothing.
use proxify.Common.{
  ℕ, List, [], ◌∷◌, ◌++◌, ◌≡◌, refl, sym, ap, ◌∙◌, arith, ◌==◌, Bool-cases, inl, inr,
}
use proxify.Go.Strings.{Bytes, push, split, separated, join, replace_all}
use proxify.Go.Strings.Splitting.{Lacks, split-cases, split_lacking}

push-append :
    (c : ℕ) (ps : List Bytes) (p t : Bytes)
    → (qs : List Bytes) × (q : Bytes) × (push c (ps ++ ((p ++ t) ∷ [])) ≡ qs ++ ((q ++ t) ∷ []))
unfolding push
push-append c [] p t = ([], c ∷ p, refl)
push-append c (r ∷ ps) p t = ((c ∷ r) ∷ ps, p, refl)

module _ (sep : ℕ) where
  -- What follows the last separator is the last part.
  pub split-append_last :
      (s t : Bytes) → Lacks sep t → split (s ++ (sep ∷ t)) sep ≡ split s sep ++ (t ∷ [])
  unfolding split push
  split-append_last [] t h = ground (arith, split_lacking sep t h)
  split-append_last (c ∷ s) t h =
      let (p, ps, e) = split-cases sep s in
      elim (Bool-cases (c == sep)) [
        | inl same ↦ rw (same, split, split-append_last s t h) refl
        | inr other ↦ rw (other, split, split-append_last s t h, e) refl
      ]

  -- A suffix without separators stays within the last part.
  pub split-append_lacking :
      (s t : Bytes)
      → Lacks sep t
      → (ps : List Bytes) × (p : Bytes) × (split (s ++ t) sep ≡ ps ++ ((p ++ t) ∷ []))
  unfolding split push
  split-append_lacking [] t h = ([], [], split_lacking sep t h)
  split-append_lacking (c ∷ s) t h =
      let (ps, p, e) = split-append_lacking s t h in
      elim (Bool-cases (c == sep)) [
        | inl same ↦ ([] ∷ ps, p, rw (same, split, e) refl)
        | inr other ↦ let (qs, q, e') = push-append c ps p t in (qs, q, rw (other, split, e) e')
      ]

  -- Joining the parts of a split with nothing deletes the separators.
  pub join-split_nothing : (s : Bytes) → join (split s sep) [] ≡ replace_all s sep []
  unfolding split push join separated replace_all
  join-split_nothing [] = refl
  join-split_nothing (c ∷ s) =
      let (p, ps, e) = split-cases sep s in
      let rest : p ++ separated [] ps ≡ replace_all s sep [] =
        sym (ap (λ qs. join qs []) e) ∙ join-split_nothing s in
      elim (Bool-cases (c == sep)) [
        | inl same ↦ rw (same, split, e) rest
        | inr other ↦ rw (other, split, e) (ap (λ r. c ∷ r) rest)
      ]
