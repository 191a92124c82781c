-- ===== src/Swaggergen/Specs.antt =====
-- pkg/swaggergen/spec.go, info.go and servers.go, and `CreateSpec` of
-- cmd/swaggergen/swaggergen.go.
use proxify.Common.{Bool, false, Option, none, some, List, [], ◌∷◌, ◌++◌, if◌then◌else◌, ◌||◌}
use proxify.Go.Outcome.{Outcome, ok, panic, ◌>>=◌}
use proxify.Go.Strings.{Bytes, codes, str_eq}
use proxify.Go.Maps.{Map, lookup, insert}
use proxify.Go.Http.{Request, Response, HttpLib}
use proxify.Swaggergen.Schemas.{Json}
use proxify.Swaggergen.Methods.{RequestResponse, SpecPath, new_path, update_path}

pub record Info : Type 0 where
  pub title : Bytes
  pub description : Bytes
  pub version : Bytes

pub record Server : Type 0 where
  pub url : Bytes
  pub description : Bytes

pub record Spec : Type 0 where
  pub open_api : Bytes
  pub info : Option Info
  pub servers : List Server
  pub paths : Option (Map SpecPath)

-- `s.Paths[path]`, where nothing is found in a nil map.
abbrev pub path_at : Bytes → Option (Map SpecPath) → Option SpecPath
path_at k none = none
path_at k (some paths) = lookup k paths

-- `NewServer(api, "")`
abbrev pub new_server : Bytes → Server
new_server api = record { url = api; description = [] }

-- `NewSpec`, with `NewInfo`
unfoldable pub new_spec : Bytes → Bytes → Spec
new_spec log_dir api = record {
  open_api = codes "3.0.0";
  info = some (record { title = log_dir; description = []; version = codes "1.0.0" });
  servers = new_server api ∷ [];
  paths = some [];
}

-- The loop over the servers, which returns at one with this URL.
unfoldable pub has_server : Bytes → List Server → Bool
has_server url [] = false
has_server url (s ∷ servers) = str_eq s.url url || has_server url servers

-- `UpdateSpec`, with `UpdateInfo`, which panics where the info is nil.
unfoldable pub update_spec : Bytes → Bytes → Spec → Outcome Spec
update_spec log_dir api s = elim s.info [
  | none ↦ panic
  | some info ↦ ok (record s {
    info = some (record info { title = info.title ++ (codes "," ++ log_dir) });
    servers = if has_server api s.servers then s.servers else s.servers ++ (new_server api ∷ []);
  })
]

module _ (unmarshal : Bytes → Outcome Json) (lib : HttpLib) where
  -- The path of a request: a new one, or the old one updated.
  unfoldable pub path_for : Map SpecPath → Request → Option Response → Outcome SpecPath
  path_for paths req response = elim (lookup req.url.path paths) [
    | none ↦ new_path unmarshal lib req response
    | some old ↦ update_path unmarshal lib old req response
  ]

  -- `AddPath`; a nil request panics, and so does the assignment to a nil map of paths.
  unfoldable pub add_path : RequestResponse → Spec → Outcome Spec
  unfolding path_for
  add_path r s = elim r.request [
    | none ↦ panic
    | some req ↦ elim s.paths [
      | none ↦ new_path unmarshal lib req r.response >>= λ p. panic
      | some paths ↦ path_for paths req r.response >>= λ p.
          ok (record s { paths = some (insert req.url.path p paths) })
    ]
  ]

  -- The loop of `CreateSpec`, over the requests for the host of the API.
  unfoldable pub add_paths : Bytes → List RequestResponse → Spec → Outcome Spec
  add_paths api [] s = ok s
  add_paths api (r ∷ rs) s = elim r.request [
    | none ↦ panic
    | some req ↦ (if str_eq req.host api then add_path r s else ok s) >>= add_paths api rs
  ]

  -- `CreateSpec`, for the specification that was read from the file, if there is one.
  unfoldable pub create_spec : Bytes → Bytes → List RequestResponse → Option Spec → Outcome Spec
  create_spec log_dir api rs none = add_paths api rs (new_spec log_dir api)
  create_spec log_dir api rs (some s) = update_spec log_dir api s >>= add_paths api rs
