-- ===== src/Swaggergen/Servers.antt =====
-- The servers of a specification, which pkg/swaggergen/spec.go keeps apart by their URLs.
use proxify.Common.{
  ◌≡◌, refl, some, true, false, if◌then◌else◌, List, [], ◌∷◌, ◌++◌, arith, ◌||◌, Bool-cases, inl,
  inr,
}
use proxify.Go.Outcome.{ok}
use proxify.Go.Strings.{Bytes, codes, str_eq}
use proxify.Go.Strings.Equality.{str_eq_refl, str_eq_iff}
use proxify.Swaggergen.Specs.{Info, Server, Spec, new_server, has_server, update_spec}

-- No two servers have one URL.
abbrev pub IsDistinct : List Server → Type 0
IsDistinct [] = Unit
IsDistinct (s ∷ servers) = (has_server s.url servers ≡ false) × IsDistinct servers

has_server-append :
    (url api : Bytes) (servers : List Server)
    → has_server url (servers ++ (new_server api ∷ [])) ≡ (has_server url servers || str_eq api url)
unfolding has_server
has_server-append url api [] = ground arith
has_server-append url api (s ∷ servers) = ground (arith, has_server-append url api servers)

IsDistinct-append :
    (api : Bytes) (servers : List Server)
    → IsDistinct servers
    → has_server api servers ≡ false
    → IsDistinct (servers ++ (new_server api ∷ []))
unfolding has_server
IsDistinct-append api [] _ h = (refl, tt)
IsDistinct-append api (s ∷ servers) (d, ds) h = ground (
  arith,
  has_server-append s.url api servers,
  IsDistinct-append api servers ds,
  str_eq_iff s.url api,
  str_eq_iff api s.url,
)

-- What the loop of `UpdateSpec` makes of the servers.
abbrev with_server : Bytes → List Server → List Server
with_server api servers =
    if has_server api servers then servers else servers ++ (new_server api ∷ [])

with_server-IsDistinct :
    (api : Bytes) (servers : List Server)
    → IsDistinct servers
    → IsDistinct (with_server api servers)
      × (has_server api (with_server api servers) ≡ true)
      × ((url : Bytes)
          → has_server url servers ≡ true
          → has_server url (with_server api servers) ≡ true)
with_server-IsDistinct api servers d = elim (Bool-cases (has_server api servers)) [
  | inl known ↦ rw known (d, known, λ url h. h)
  | inr new ↦ rw new (
    IsDistinct-append api servers d new,
    rw (has_server-append api api servers, new, str_eq_refl) refl,
    λ url h. rw (has_server-append url api servers, h) refl,
  )
]

-- For a specification with its info and with servers of distinct URLs, `update_spec` succeeds
-- with servers of distinct URLs, among which are the one of the API and all that were there.
pub update_spec-IsDistinct :
    (log_dir api : Bytes) (s : Spec) (info : Info)
    → s.info ≡ some info
    → IsDistinct s.servers
    → (s' : Spec) × (update_spec log_dir api s ≡ ok s')
      × IsDistinct s'.servers
      × (has_server api s'.servers ≡ true)
      × ((url : Bytes) → has_server url s.servers ≡ true → has_server url s'.servers ≡ true)
unfolding update_spec
update_spec-IsDistinct log_dir api s info there d =
    let (distinct, ours, theirs) = with_server-IsDistinct api s.servers d in
    (
      record s {
        info = some (record info { title = info.title ++ (codes "," ++ log_dir) });
        servers = with_server api s.servers;
      },
      rw (there, update_spec) refl,
      distinct,
      ours,
      theirs,
    )
