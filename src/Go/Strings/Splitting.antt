-- ===== src/Go/Strings/Splitting.antt =====
-- Splitting and joining undo one another.
use proxify.Common.{
  ℕ, List, [], ◌∷◌, ◌++◌, append-nil, ◌≡◌, ◌≢◌, refl, sym, ap, ◌∙◌, arith, All, ◌==◌, Bool-cases,
  inl, inr,
}
use proxify.Go.Strings.{Bytes, push, split, separated, join}

abbrev pub Lacks : ℕ → Bytes → Type 0
Lacks b = All (λ c. c ≢ b)

pub join-cons : (sep p : Bytes) (ps : List Bytes) → join (p ∷ ps) sep ≡ p ++ separated sep ps
unfolding join
join-cons sep p ps = refl

-- Text before the first part.
abbrev prefixed : Bytes → List Bytes → List Bytes
prefixed t [] = t ∷ []
prefixed t (p ∷ ps) = (t ++ p) ∷ ps

push-prefixed : (c : ℕ) (t : Bytes) (ps : List Bytes) → push c (prefixed t ps) ≡ prefixed (c ∷ t) ps
unfolding push
push-prefixed c t [] = refl
push-prefixed c t (p ∷ ps) = refl

module _ (sep : ℕ) where
  pub split-cases : (s : Bytes) → (p : Bytes) × (ps : List Bytes) × (split s sep ≡ p ∷ ps)
  unfolding split push
  split-cases [] = ([], [], refl)
  split-cases (c ∷ s) =
      let (p, ps, e) = split-cases s in
      elim (Bool-cases (c == sep)) [
        | inl same ↦ ([], p ∷ ps, rw (same, split, e) refl)
        | inr other ↦ (c ∷ p, ps, rw (other, split, e) refl)
      ]

  pub split_at : (s : Bytes) → split (sep ∷ s) sep ≡ [] ∷ split s sep
  unfolding split
  split_at s = ground arith

  split-append : (t s : Bytes) → Lacks sep t → split (t ++ s) sep ≡ prefixed t (split s sep)
  unfolding split
  split-append [] s h = let (p, ps, e) = split-cases s in rw e refl
  split-append (c ∷ t) s h = ground (arith, split-append t s, push-prefixed c t (split s sep))

  pub split_lacking : (t : Bytes) → Lacks sep t → split t sep ≡ t ∷ []
  split_lacking t h =
      ap (λ u. split u sep) (sym (append-nil t))
      ∙ split-append t [] h
      ∙ unfold split in rw append-nil refl

  split-separated :
      (p : Bytes) (ps : List Bytes)
      → Lacks sep p
      → All (Lacks sep) ps
      → split (p ++ separated (sep ∷ []) ps) sep ≡ p ∷ ps
  unfolding separated
  split-separated p [] h _ = rw append-nil (split_lacking p h)
  split-separated p (q ∷ qs) h (k, ks) =
      split-append p _ h ∙ rw (split_at, split-separated q qs k ks, append-nil) refl

  -- Splitting a join gives the parts back, if there is a part and none holds the separator.
  pub split-join :
      (p : Bytes) (ps : List Bytes)
      → Lacks sep p
      → All (Lacks sep) ps
      → split (join (p ∷ ps) (sep ∷ [])) sep ≡ p ∷ ps
  split-join p ps h hs = rw join-cons (split-separated p ps h hs)
