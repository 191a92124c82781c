-- ===== src/Proxy/Dns.antt =====
-- The DNS mapping, which `NewProxy` of proxy.go and `dnsserver` of cmd/mitmrelay/mitmrelay.go
-- read alike.
use proxify.Common.{
  ◌≡◌, ◌≢◌, refl, ap, ◌∙◌, ℕ, Option, none, some, List, [], ◌∷◌, arith, All, All-append, map,
  if◌then◌else◌,
}
use proxify.Go.Strings.{Bytes, split, separated, join, str_eq}
use proxify.Go.Strings.Splitting.{Lacks, split-join, join-cons}
use proxify.Go.Maps.{Map, insert, lookup, lookup-insert}

-- A record with two parts is entered; any other is skipped.
unfoldable pub add_record : Map Bytes → List Bytes → Map Bytes
add_record m (domain ∷ ip ∷ []) = insert domain ip m
add_record m _ = m

records : List Bytes → Map Bytes → Map Bytes
records [] m = m
records (r ∷ rs) m = records rs (add_record m (split r b':'))

-- The loop of `NewProxy`
unfoldable pub dns_mapping : Bytes → Map Bytes
unfolding records
dns_mapping s = records (split s b',') []

-- A record as it is written: its parts, with a colon between two of them.
pub record Item : Type 0 where
  pub first : Bytes
  pub others : List Bytes

abbrev pub print_item : Item → Bytes
print_item i = join (i.first ∷ i.others) (b':' ∷ [])

abbrev pub print_mapping : Item → List Item → Bytes
print_mapping i items = join (print_item i ∷ map print_item items) (b',' ∷ [])

-- No part holds a separator.
abbrev pub IsClean : Item → Type 0
IsClean i =
    (Lacks b':' i.first × Lacks b',' i.first)
    × (All (Lacks b':') i.others × All (Lacks b',') i.others)

-- The address of a domain: that of the last record that has two parts and begins with it.
abbrev pub address : Bytes → List Item → Option Bytes → Option Bytes
address k [] old = old
address k (i ∷ items) old = address k items (elim i.others [
  | [] ↦ old
  | ip ∷ more ↦ elim more [ [] ↦ if str_eq i.first k then some ip else old | _ ∷ _ ↦ old ]
])

separated-Lacks :
    (c : ℕ) (sep : Bytes) (ps : List Bytes)
    → Lacks c sep
    → All (Lacks c) ps
    → Lacks c (separated sep ps)
unfolding separated
separated-Lacks c sep [] h k = tt
separated-Lacks c sep (p ∷ ps) h (k, ks) =
    All-append (λ d. d ≢ c) sep _ h (All-append (λ d. d ≢ c) p _ k (separated-Lacks c sep ps h ks))

print_item-Lacks : (i : Item) → IsClean i → Lacks b',' (print_item i)
print_item-Lacks i h = rw (join-cons (b':' ∷ []) i.first i.others) (
    All-append (λ d. d ≢ b',') i.first _ h.0.1
      (separated-Lacks b',' (b':' ∷ []) i.others (omega arith) h.1.1))

map-Lacks : (items : List Item) → All IsClean items → All (Lacks b',') (map print_item items)
map-Lacks [] _ = tt
map-Lacks (i ∷ items) (h, hs) = (print_item-Lacks i h, map-Lacks items hs)

lookup-add_record :
    (k first : Bytes) (others : List Bytes) (m : Map Bytes)
    → lookup k (add_record m (first ∷ others))
      ≡ address k (record { first = first; others = others } ∷ []) (lookup k m)
unfolding add_record
lookup-add_record k first [] m = refl
lookup-add_record k first (ip ∷ []) m = lookup-insert first k ip m
lookup-add_record k first (ip ∷ p ∷ ps) m = refl

lookup-records :
    (k : Bytes) (items : List Item) (m : Map Bytes)
    → All IsClean items
    → lookup k (records (map print_item items) m) ≡ address k items (lookup k m)
unfolding records
lookup-records k [] m _ = refl
lookup-records k (i ∷ items) m (h, hs) =
    rw (split-join b':' i.first i.others h.0.0 h.1.0, records)
      (lookup-records k items (add_record m (i.first ∷ i.others)) hs
        ∙ ap (address k items) (lookup-add_record k i.first i.others m))

-- For a mapping that is printed from records whose parts hold no separator: the address of a
-- domain is the second part of the last record that has exactly two parts and begins with the
-- domain; records with another number of parts count for nothing.
pub lookup-dns_mapping :
    (k : Bytes) (i : Item) (items : List Item)
    → All IsClean (i ∷ items)
    → lookup k (dns_mapping (print_mapping i items)) ≡ address k (i ∷ items) none
unfolding dns_mapping
lookup-dns_mapping k i items h =
    rw
      (split-join b',' (print_item i) (map print_item items) (print_item-Lacks i h.0)
        (map-Lacks items h.1))
      (lookup-records k (i ∷ items) [] h ∙ unfold lookup in refl)
