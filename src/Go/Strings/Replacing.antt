-- ===== src/Go/Strings/Replacing.antt =====
-- `replace_all`, and what the parts of a split lack.
use proxify.Common.{ℕ, List, [], ◌∷◌, ◌++◌, append_assoc, ◌≡◌, ◌≢◌, refl, arith, All, All-append}
use proxify.Go.Strings.{Bytes, codes, push, split, separated, join, replace_all}
use proxify.Go.Strings.Splitting.{Lacks, join-cons}

pub replace_all-Lacks : (s new : Bytes) (c : ℕ) → Lacks c new → Lacks c (replace_all s c new)
unfolding replace_all
replace_all-Lacks [] new c h = tt
replace_all-Lacks (d ∷ s) new c h =
    All-append (λ e. e ≢ c) _ _ (ground arith) (replace_all-Lacks s new c h)

replace_all-append :
    (s t : Bytes) (c : ℕ) (new : Bytes)
    → replace_all (s ++ t) c new ≡ replace_all s c new ++ replace_all t c new
unfolding replace_all
replace_all-append [] t c new = refl
replace_all-append (d ∷ s) t c new = rw (replace_all-append s t c new, append_assoc) refl

pub replace_all_absent : (s new : Bytes) (c : ℕ) → Lacks c s → replace_all s c new ≡ s
unfolding replace_all
replace_all_absent [] new c h = refl
replace_all_absent (d ∷ s) new c h = ground (arith, replace_all_absent s new c)

replace_all_after_comma :
    (s : Bytes) → replace_all (b',' ∷ b' ' ∷ s) b' ' [] ≡ b',' ∷ replace_all s b' ' []
unfolding replace_all
replace_all_after_comma s = refl

replace_all-separated :
    (ps : List Bytes)
    → All (Lacks b' ') ps
    → replace_all (separated (codes ", ") ps) b' ' [] ≡ separated (b',' ∷ []) ps
unfolding separated codes
replace_all-separated [] h = unfold replace_all in refl
replace_all-separated (p ∷ ps) (h, hs) =
    rw
      (
        replace_all_after_comma,
        replace_all-append,
        replace_all_absent p [] b' ' h,
        replace_all-separated ps hs,
      )
      refl

-- Without its spaces a list joined by ", " is joined by ",".
pub replace_all-join :
    (ps : List Bytes)
    → All (Lacks b' ') ps
    → replace_all (join ps (codes ", ")) b' ' [] ≡ join ps (b',' ∷ [])
replace_all-join [] h = unfold replace_all join in refl
replace_all-join (p ∷ ps) (h, hs) =
    rw
      (
        join-cons (codes ", ") p ps,
        join-cons (b',' ∷ []) p ps,
        replace_all-append,
        replace_all_absent p [] b' ' h,
        replace_all-separated ps hs,
      )
      refl

push-All : (b c : ℕ) (ps : List Bytes) → c ≢ b → All (Lacks b) ps → All (Lacks b) (push c ps)
unfolding push
push-All b c [] n h = ((n, tt), tt)
push-All b c (p ∷ ps) n (h, hs) = ((n, h), hs)

-- No part of a split holds the separator, nor anything that the text lacks.
module _ (sep : ℕ) where
  pub split-Lacks_sep : (s : Bytes) → All (Lacks sep) (split s sep)
  unfolding split
  split-Lacks_sep [] = (tt, tt)
  split-Lacks_sep (c ∷ s) = ground (arith, split-Lacks_sep s, push-All sep c (split s sep))

  pub split-Lacks : (b : ℕ) (s : Bytes) → Lacks b s → All (Lacks b) (split s sep)
  unfolding split
  split-Lacks b [] _ = (tt, tt)
  split-Lacks b (c ∷ s) (n, h) = ground (arith, split-Lacks b s h, push-All b c (split s sep) n)
