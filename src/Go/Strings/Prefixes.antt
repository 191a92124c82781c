-- ===== src/Go/Strings/Prefixes.antt =====
-- `strings.HasPrefix` of a text that goes on, for the readers of stored logs.
use proxify.Common.{◌≡◌, ◌≢◌, true, [], ◌∷◌, ◌++◌, arith, All}
use proxify.Go.Strings.{Bytes, has_prefix}

pub has_prefix-before :
    (p s rest : Bytes)
    → All (λ c. c ≢ b'\n') p
    → has_prefix (s ++ (b'\n' ∷ rest)) p ≡ true
    → has_prefix s p ≡ true
unfolding has_prefix
has_prefix-before [] s rest _ h = ground arith
has_prefix-before (q ∷ p) [] rest (hq, hp) h = ground arith
has_prefix-before (q ∷ p) (c ∷ s) rest (hq, hp) h = ground (arith, has_prefix-before p s rest hp)

pub has_prefix-extend : (p s rest : Bytes) → has_prefix s p ≡ true → has_prefix (s ++ rest) p ≡ true
unfolding has_prefix
has_prefix-extend [] s rest h = ground arith
has_prefix-extend (q ∷ p) [] rest h = cc
has_prefix-extend (q ∷ p) (c ∷ s) rest h = ground (arith, has_prefix-extend p s rest)
