-- ===== src/Go/Strings.antt =====
-- Go's `string` and `[]byte` as lists of bytes, with the functions of package strings that the
-- program calls.
pub mod Equality
pub mod Splitting
pub mod Affixes
pub mod Replacing
pub mod Parts
pub mod Prefixes
use Prim.Native.Char.{code}
use Prim.Native.String
use proxify.Common.{
  ℕ, zero, suc, ◌-◌, length, String, Bool, true, false, not, ◌&&◌, ◌||◌, List, [], ◌∷◌, ◌++◌, ◌==◌,
  leb, ◌+◌, ◌≡◌, refl, if◌then◌else◌, map,
}
use mathlib.Core.List.{reverse}

abbrev pub Bytes : Type 0
Bytes = List ℕ

-- The bytes of a literal. All literals of the source that are modelled are ASCII.
unfoldable pub codes : String → Bytes
codes String.[] = []
codes (String.◌∷◌ c s) = code c ∷ codes s

-- `s == t`
unfoldable pub str_eq : Bytes → Bytes → Bool
str_eq [] [] = true
str_eq [] (d ∷ t) = false
str_eq (c ∷ s) [] = false
str_eq (c ∷ s) (d ∷ t) = c == d && str_eq s t

-- `strings.HasPrefix(s, prefix)`
unfoldable pub has_prefix : Bytes → Bytes → Bool
has_prefix s [] = true
has_prefix [] (p ∷ ps) = false
has_prefix (c ∷ s) (p ∷ ps) = c == p && has_prefix s ps

-- `strings.HasSuffix(s, suffix)`
unfoldable pub has_suffix : Bytes → Bytes → Bool
has_suffix s suffix = has_prefix (reverse s) (reverse suffix)

drop_prefix : Bytes → Bytes → Bytes
drop_prefix s [] = s
drop_prefix [] (p ∷ ps) = []
drop_prefix (c ∷ s) (p ∷ ps) = drop_prefix s ps

-- `strings.TrimSuffix(s, suffix)`
unfoldable pub trim_suffix : Bytes → Bytes → Bytes
unfolding drop_prefix
trim_suffix s suffix =
    if has_suffix s suffix then reverse (drop_prefix (reverse s) (reverse suffix)) else s

-- A byte before the first part.
unfoldable pub push : ℕ → List Bytes → List Bytes
push c [] = (c ∷ []) ∷ []
push c (p ∷ ps) = (c ∷ p) ∷ ps

-- `strings.Split(s, sep)` for a separator of one byte: at least one part.
unfoldable pub split : Bytes → ℕ → List Bytes
unfolding push
split [] sep = [] ∷ []
split (c ∷ s) sep = let rest = split s sep in if c == sep then [] ∷ rest else push c rest

-- `strings.Split` with `skipped` bytes of a separator still to pass.
unfoldable pub split_from : Bytes → ℕ → Bytes → List Bytes
unfolding push
split_from sep skipped [] = [] ∷ []
split_from sep (suc skipped) (c ∷ s) = split_from sep skipped s
split_from sep zero (c ∷ s) =
    let found = has_prefix (c ∷ s) sep in
    let rest = split_from sep (if found then length sep - 1 else 0) s in
    if found then [] ∷ rest else push c rest

-- `strings.Split(s, sep)` for a `sep` that is not empty.
unfoldable pub split_text : Bytes → Bytes → List Bytes
split_text s sep = split_from sep 0 s

-- Every part behind a separator.
unfoldable pub separated : Bytes → List Bytes → Bytes
separated sep [] = []
separated sep (p ∷ ps) = sep ++ (p ++ separated sep ps)

-- `strings.Join(parts, sep)`
unfoldable pub join : List Bytes → Bytes → Bytes
unfolding separated
join [] sep = []
join (p ∷ ps) sep = p ++ separated sep ps

-- `strings.ReplaceAll(s, old, new)` for an `old` of one byte.
unfoldable pub replace_all : Bytes → ℕ → Bytes → Bytes
replace_all [] old new = []
replace_all (c ∷ s) old new = (if c == old then new else c ∷ []) ++ replace_all s old new

-- `strings.ReplaceAll` with `skipped` bytes of an occurrence still to pass.
unfoldable pub replace_from : Bytes → Bytes → ℕ → Bytes → Bytes
replace_from old new skipped [] = []
replace_from old new (suc skipped) (c ∷ s) = replace_from old new skipped s
replace_from old new zero (c ∷ s) =
    let found = has_prefix (c ∷ s) old in
    let rest = replace_from old new (if found then length old - 1 else 0) s in
    if found then new ++ rest else c ∷ rest

-- `strings.ReplaceAll(s, old, new)` for an `old` that is not empty.
unfoldable pub replace_text : Bytes → Bytes → Bytes → Bytes
replace_text old new s = replace_from old new 0 s

-- `strings.Split(s, sep)[0]` for a `sep` that is not empty: what stands before it, or all.
unfoldable pub before : Bytes → Bytes → Bytes
before sep [] = []
before sep (c ∷ s) = let rest = before sep s in if has_prefix (c ∷ s) sep then [] else c ∷ rest

-- The ASCII white space that `strings.TrimSpace` removes.
is_space : ℕ → Bool
is_space c = c == 32 || (leb 9 c && leb c 13)

drop_space : Bytes → Bytes
unfolding is_space
drop_space [] = []
drop_space (c ∷ s) = let rest = drop_space s in if is_space c then rest else c ∷ s

-- `strings.TrimSpace(s)` on ASCII text.
unfoldable pub trim_space : Bytes → Bytes
unfolding drop_space
trim_space s = reverse (drop_space (reverse (drop_space s)))

lower : ℕ → ℕ
lower c = if leb b'A' c && leb c b'Z' then c + 32 else c

-- `strings.ToLower(s)` on ASCII text.
unfoldable pub to_lower : Bytes → Bytes
unfolding lower
to_lower s = map lower s
