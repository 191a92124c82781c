-- ===== src/Proxy/Encoding.antt =====
-- `removeBrEncoding` of proxy.go.
use proxify.Common.{
  ◌≡◌, ◌≢◌, refl, ap, ◌∙◌, List, [], ◌∷◌, arith, All, if◌then◌else◌, ◌⊎◌, inl, inr,
}
use proxify.Go.Strings.{Bytes, codes, str_eq, split, join, replace_all}
use proxify.Go.Strings.Equality.{str_eq_iff}
use proxify.Go.Strings.Splitting.{Lacks, split-join}
use proxify.Go.Strings.Replacing.{replace_all-Lacks, replace_all-join, split-Lacks, split-Lacks_sep}
use proxify.Go.Http.{Request, header_get, header_set, header_get-header_set, header_set_twice}
use proxify.Proxy.Env.{ProxyLib}
use proxify.Proxy.Modify.{remove_br_encoding}

-- What `PruneEqual` is documented to do: all items that equal the value are left out.
unfoldable pub remove_equal : List Bytes → Bytes → List Bytes
remove_equal [] v = []
remove_equal (x ∷ xs) v = let rest = remove_equal xs v in if str_eq x v then rest else x ∷ rest

abbrev pub PrunesEqual : ProxyLib → Type 0
PrunesEqual lib = (xs : List Bytes) (v : Bytes) → lib.prune_equal xs v ≡ remove_equal xs v

remove_equal-All :
    (P : Bytes → Type 0) (xs : List Bytes) (v : Bytes) → All P xs → All P (remove_equal xs v)
unfolding remove_equal
remove_equal-All P [] v h = tt
remove_equal-All P (x ∷ xs) v (h, hs) = ground (arith, remove_equal-All P xs v hs)

remove_equal-absent : (xs : List Bytes) (v : Bytes) → All (λ x. x ≢ v) (remove_equal xs v)
unfolding remove_equal
remove_equal-absent [] v = tt
remove_equal-absent (x ∷ xs) v = ground (arith, remove_equal-absent xs v, str_eq_iff x v)

remove_equal_of_absent :
    (xs : List Bytes) (v : Bytes) → All (λ x. x ≢ v) xs → remove_equal xs v ≡ xs
unfolding remove_equal
remove_equal_of_absent [] v h = refl
remove_equal_of_absent (x ∷ xs) v (h, hs) =
    ground (arith, remove_equal_of_absent xs v hs, str_eq_iff x v)

-- The encodings that a header lists, without spaces.
abbrev pub listed : Bytes → List Bytes
listed header = split (replace_all header b' ' []) b','

-- Listing what was joined gives the parts back; no part at all reads as one empty part.
listed_again :
    (ps : List Bytes)
    → All (Lacks b',') ps
    → All (Lacks b' ') ps
    → (listed (join ps (codes ", ")) ≡ ps) ⊎ ((ps ≡ []) × (listed (join ps (codes ", ")) ≡ [] ∷ []))
listed_again [] h k = inr (refl, unfold join replace_all split in refl)
listed_again (p ∷ ps) h k = inl (rw (replace_all-join (p ∷ ps) k) (split-join b',' p ps h.0 h.1))

kept : Bytes → List Bytes
kept header = remove_equal (listed header) (codes "br")

kept-Lacks_comma : (header : Bytes) → All (Lacks b',') (kept header)
unfolding kept
kept-Lacks_comma header = remove_equal-All (Lacks b',') _ _ (split-Lacks_sep b',' _)

kept-Lacks_space : (header : Bytes) → All (Lacks b' ') (kept header)
unfolding kept
kept-Lacks_space header =
    remove_equal-All (Lacks b' ') _ _
      (split-Lacks b',' b' ' _ (replace_all-Lacks header [] b' ' tt))

empty-ne-br : ◌≢◌ {A = Bytes} [] (codes "br")
unfolding codes
empty-ne-br = cc

listed-kept :
    (header : Bytes) → All (λ e. e ≢ codes "br") (listed (join (kept header) (codes ", ")))
listed-kept header =
    elim (listed_again (kept header) (kept-Lacks_comma header) (kept-Lacks_space header)) [
      | inl same ↦ rw same (unfold kept in remove_equal-absent (listed header) (codes "br"))
      | inr (none_left, one) ↦ rw one (empty-ne-br, tt)
    ]

kept-absent : (header : Bytes) → All (λ e. e ≢ codes "br") (kept header)
unfolding kept
kept-absent header = remove_equal-absent (listed header) (codes "br")

kept_of_listed :
    (header : Bytes) (ps : List Bytes)
    → listed header ≡ ps
    → All (λ e. e ≢ codes "br") ps
    → kept header ≡ ps
unfolding kept
kept_of_listed header ps same h = rw same (remove_equal_of_absent ps (codes "br") h)

join-kept_again :
    (header : Bytes)
    → join (kept (join (kept header) (codes ", "))) (codes ", ") ≡ join (kept header) (codes ", ")
join-kept_again header =
    elim (listed_again (kept header) (kept-Lacks_comma header) (kept-Lacks_space header)) [
      | inl same ↦ ap (λ ps. join ps (codes ", ")) (kept_of_listed _ _ same (kept-absent header))
      | inr (none_left, one) ↦
          rw (kept_of_listed _ _ one (empty-ne-br, tt), none_left) (unfold join in refl)
    ]

module _ (lib : ProxyLib) (prunes : PrunesEqual lib) where
  accept : Request → Bytes
  accept req = header_get (codes "Accept-Encoding") req.header

  remove_br_encoding-eq :
      (req : Request)
      → remove_br_encoding lib req ≡ record req {
        header =
            header_set (codes "Accept-Encoding") (join (kept (accept req)) (codes ", ")) req.header;
      }
  unfolding remove_br_encoding kept accept
  remove_br_encoding-eq req = rw prunes refl

  -- When `PruneEqual` drops exactly the equal items: the encodings that a request accepts after
  -- `remove_br_encoding`, read as a list without spaces, do not hold "br".
  pub remove_br_encoding-removes :
      (req : Request)
      → All
          (λ e. e ≢ codes "br")
          (listed (header_get (codes "Accept-Encoding") (remove_br_encoding lib req).header))
  remove_br_encoding-removes req =
      rw (remove_br_encoding-eq, header_get-header_set) (listed-kept (accept req))

  -- When `PruneEqual` drops exactly the equal items, a second `remove_br_encoding` changes
  -- nothing.
  remove_br_encoding_idempotent :
      (req : Request)
      → remove_br_encoding lib (remove_br_encoding lib req) ≡ remove_br_encoding lib req
  unfolding accept
  remove_br_encoding_idempotent req =
      let v = join (kept (accept req)) (codes ", ") in
      let h = header_set (codes "Accept-Encoding") v req.header in
      let same : header_set (codes "Accept-Encoding")
            (join (kept (header_get (codes "Accept-Encoding") h)) (codes ", ")) h
          ≡ h =
        rw (header_get-header_set, join-kept_again) (header_set_twice _ v req.header) in
      rw (remove_br_encoding-eq req)
        (remove_br_encoding-eq (record req { header = h }) ∙ (λ i. record req { header = same i }))
