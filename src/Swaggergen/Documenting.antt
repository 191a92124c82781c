-- ===== src/Swaggergen/Documenting.antt =====
-- What a specification documents of the exchanges that pkg/swaggergen and cmd/swaggergen were
-- given.
use proxify.Common.{
  ◌≡◌, refl, sym, ◌∙◌, Bool, true, false, ◌||◌, ◌&&◌, Option, none, some, List, [], ◌∷◌, arith,
  Option-cases, Bool-cases, inl, inr, if◌then◌else◌,
}
use proxify.Go.Outcome.{Outcome, ok, >>=-IsOk, ok_injective}
use proxify.Go.Strings.{Bytes, to_lower, str_eq}
use proxify.Go.Strings.Equality.{str_eq_iff}
use proxify.Go.Maps.{Map, lookup, insert, lookup-insert}
use proxify.Go.Http.{Request, Response, HttpLib}
use proxify.Swaggergen.Schemas.{Json}
use proxify.Swaggergen.Methods.{
  RequestResponse, Method, SpecPath, method_for, new_method, new_path, update_path,
}
use proxify.Swaggergen.Additions.{add_path-Enters}
use proxify.Swaggergen.Specs.{
  Spec, path_at, path_for, add_path, add_paths, new_spec, update_spec, create_spec,
}

-- Whether a path has this method.
unfoldable pub has_method : Bytes → Option SpecPath → Bool
has_method m none = false
has_method m (some p) = elim (lookup m p) [ none ↦ false | some found ↦ true ]

-- Whether the paths hold this method at this path.
unfoldable pub documents : Bytes → Bytes → Option (Map SpecPath) → Bool
documents k m paths = has_method m (path_at k paths)

-- Whether a request is made with this method, in small letters, at this path.
unfoldable pub requests : Bytes → Bytes → Request → Bool
requests k m req = str_eq req.url.path k && str_eq (to_lower req.method) m

-- Whether an exchange holds such a request, for this host.
unfoldable pub asks : Bytes → Bytes → Bytes → RequestResponse → Bool
asks api k m r = elim r.request [
  | none ↦ false
  | some req ↦ str_eq req.host api && requests k m req
]

-- Whether one of the exchanges does.
unfoldable pub some_asks : Bytes → Bytes → Bytes → List RequestResponse → Bool
some_asks api k m [] = false
some_asks api k m (r ∷ rs) = asks api k m r || some_asks api k m rs

-- What the file of the specification documents, if there is one.
unfoldable pub documented : Bytes → Bytes → Option Spec → Bool
documented k m none = false
documented k m (some s) = documents k m s.paths

has_method-insert :
    (j m : Bytes) (new : Method) (p : SpecPath)
    → has_method m (some (insert j new p)) ≡ has_method m (some p) || str_eq j m
unfolding has_method
has_method-insert j m new p = rw (lookup-insert, has_method) (ground arith)

documents-insert :
    (j k m : Bytes) (p : SpecPath) (paths : Map SpecPath) (b : Bool)
    → has_method m (some p) ≡ has_method m (lookup j paths) || b
    → documents k m (some (insert j p paths)) ≡ documents k m (some paths) || (str_eq j k && b)
unfolding documents
documents-insert j k m p paths b h =
    rw (lookup-insert, documents)
      (elim (Bool-cases (str_eq j k)) [
        | inl same ↦
            let e : j ≡ k = (str_eq_iff j k).0 same in rw (same, documents) ((rw e at h) ∙ refl)
        | inr other ↦ rw (other, documents) (ground arith)
      ])

update_spec-paths :
    (log_dir api : Bytes) (old s : Spec) → update_spec log_dir api old ≡ ok s → s.paths ≡ old.paths
unfolding update_spec
update_spec-paths log_dir api old s h = ground arith

module _ (unmarshal : Bytes → Outcome Json) (lib : HttpLib) where
  new_path-has_method :
      (req : Request) (response : Option Response) (p : SpecPath) (m : Bytes)
      → new_path unmarshal lib req response ≡ ok p
      → has_method m (some p) ≡ str_eq (to_lower req.method) m
  unfolding new_path has_method lookup
  new_path-has_method req response p m h =
      let (new, made, last) =
        >>=-IsOk (λ n. ok (insert (to_lower req.method) n []))
          (new_method unmarshal lib req response) h in
      rw (sym (ok_injective made)) (has_method-insert (to_lower req.method) m new [])

  update_path-has_method :
      (old : SpecPath) (req : Request) (response : Option Response) (p : SpecPath) (m : Bytes)
      → update_path unmarshal lib old req response ≡ ok p
      → has_method m (some p) ≡ has_method m (some old) || str_eq (to_lower req.method) m
  unfolding update_path
  update_path-has_method old req response p m h =
      let (new, made, last) =
        >>=-IsOk (λ n. ok (insert (to_lower req.method) n old))
          (method_for unmarshal lib old req response) h in
      rw (sym (ok_injective made)) (has_method-insert (to_lower req.method) m new old)

  path_for-has_method :
      (paths : Map SpecPath) (req : Request) (response : Option Response) (p : SpecPath) (m : Bytes)
      → path_for unmarshal lib paths req response ≡ ok p
      → has_method m (some p)
        ≡ has_method m (lookup req.url.path paths) || str_eq (to_lower req.method) m
  unfolding path_for has_method
  path_for-has_method paths req response p m h = elim (Option-cases (lookup req.url.path paths)) [
    | inl missing ↦ new_path-has_method req response p m (ground arith) ∙ rw missing refl
    | inr (before, found) ↦ rw found (update_path-has_method before req response p m (ground arith))
  ]

  -- After `AddPath` what was documented is, and the method of the request at its path.
  add_path-documents :
      (r : RequestResponse) (req : Request) (s s' : Spec) (k m : Bytes)
      → r.request ≡ some req
      → add_path unmarshal lib r s ≡ ok s'
      → documents k m s'.paths ≡ documents k m s.paths || requests k m req
  unfolding requests
  add_path-documents r req s s' k m hr h =
      let (paths, p, (there, made, grown)) = add_path-Enters unmarshal lib r req s s' hr h in
      let has = path_for-has_method paths req r.response p m made in
      rw (grown, there) (documents-insert req.url.path k m p paths _ has)

  asks-documents :
      (api : Bytes) (r : RequestResponse) (req : Request) (s s' : Spec) (k m : Bytes)
      → r.request ≡ some req
      → (if str_eq req.host api then add_path unmarshal lib r s else ok s) ≡ ok s'
      → documents k m s'.paths ≡ documents k m s.paths || asks api k m r
  unfolding asks
  asks-documents api r req s s' k m hr h = elim (Bool-cases (str_eq req.host api)) [
    | inl wanted ↦ rw (hr, asks) (rw wanted (add_path-documents r req s s' k m hr (rw wanted at h)))
    | inr other ↦ rw (hr, asks) (rw (other, sym (ok_injective (rw other at h))) (ground arith))
  ]

  add_paths-documents :
      (api : Bytes) (rs : List RequestResponse) (s s' : Spec) (k m : Bytes)
      → add_paths unmarshal lib api rs s ≡ ok s'
      → documents k m s'.paths ≡ documents k m s.paths || some_asks api k m rs
  unfolding add_paths some_asks
  add_paths-documents api [] s s' k m h = rw (sym (ok_injective h)) (ground arith)
  add_paths-documents api (r ∷ rs) s s' k m h = elim (Option-cases r.request) [
    | inl missing ↦ absurd (ground arith)
    | inr (req, hr) ↦
        let (next, rest, first) =
          >>=-IsOk (add_paths unmarshal lib api rs)
            (if str_eq req.host api then add_path unmarshal lib r s else ok s) (rw hr at h) in
        rw
          (
            add_paths-documents api rs next s' k m rest,
            asks-documents api r req s next k m hr first,
          )
          (ground arith)
  ]

  -- Whenever the specification is made, anew or from the one in its file: it has a method at a
  -- path exactly when the one in its file has it, or an exchange for the host of the API that
  -- was read from the logs asks with this method, in small letters, for this path.
  pub create_spec-documents :
      (log_dir api : Bytes) (rs : List RequestResponse) (old : Option Spec) (s : Spec) (k m : Bytes)
      → create_spec unmarshal lib log_dir api rs old ≡ ok s
      → documents k m s.paths ≡ documented k m old || some_asks api k m rs
  unfolding create_spec new_spec update_spec documented documents lookup has_method
  create_spec-documents log_dir api rs none s k m h = add_paths-documents api rs _ s k m h
  create_spec-documents log_dir api rs (some old) s k m h =
      let (opened, rest, updated) =
        >>=-IsOk (add_paths unmarshal lib api rs) (update_spec log_dir api old) h in
      let same : opened.paths ≡ old.paths = update_spec-paths log_dir api old opened updated in
      add_paths-documents api rs opened s k m rest ∙ rw same refl
