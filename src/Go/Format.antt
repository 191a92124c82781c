-- ===== src/Go/Format.antt =====
-- `fmt.Sprint` of the values that DSL expressions give.
use proxify.Common.{
  ℕ, zero, suc, ◌+◌, ℤ, pos, negsuc, Bool, true, false, [], ◌∷◌, ◌++◌, ltb, map, if◌then◌else◌, ◌≡◌,
  ◌<◌, ◌∙◌, refl, arith, Bool-cases, inl, inr,
}
use Prim.Native.Nat.{◌/◌, ◌%◌}
use proxify.Go.Strings.{Bytes, codes, join}

-- The fuel n + 1 is enough, since each round divides by ten.
digits : ℕ → ℕ → Bytes → Bytes
digits zero n out = out
digits (suc fuel) n out =
    let rest = digits fuel (n / 10) ((b'0' + n % 10) ∷ out) in
    if ltb n 10 then (b'0' + n) ∷ out else rest

unfoldable pub decimal : ℕ → Bytes
unfolding digits
decimal n = digits (suc n) n []

digits_step : (fuel n : ℕ) (out : Bytes) → n < fuel → digits (suc fuel) n out ≡ digits fuel n out
unfolding digits
digits_step zero n out h = absurd (omega arith)
digits_step (suc fuel) n out h = elim (Bool-cases (ltb n 10)) [
  | inl small ↦ rw (small, digits) refl
  | inr large ↦
      rw (large, digits, digits_step fuel (n / 10) ((b'0' + n % 10) ∷ out) (ground arith)) refl
]

-- More fuel than n + 1 changes nothing.
decimal_enough : (fuel n : ℕ) → n < fuel → digits fuel n [] ≡ decimal n
unfolding decimal
decimal_enough zero n h = absurd (omega arith)
decimal_enough (suc fuel) n h = elim (Bool-cases (ltb n fuel)) [
  | inl more ↦ digits_step fuel n [] (ground arith) ∙ decimal_enough fuel n (ground arith)
  | inr exact ↦ let same : fuel ≡ n = ground arith in rw same refl
]

unfoldable pub print_integer : ℤ → Bytes
print_integer (pos n) = decimal n
print_integer (negsuc n) = b'-' ∷ decimal (suc n)

unfoldable pub print_bool : Bool → Bytes
print_bool true = codes "true"
print_bool false = codes "false"

unfoldable pub print_bytes : Bytes → Bytes
print_bytes s = codes "[" ++ (join (map decimal s) (codes " ") ++ codes "]")
