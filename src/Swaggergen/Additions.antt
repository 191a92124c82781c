-- ===== src/Swaggergen/Additions.antt =====
-- What `AddPath` of pkg/swaggergen/spec.go enters, and what it leaves alone.
use proxify.Common.{◌≡◌, ◌≢◌, refl, Option, some, arith, Option-cases, inl, inr, []}
use proxify.Go.Outcome.{Outcome, ok, panic, ◌>>=◌, >>=-IsOk}
use proxify.Go.Strings.{Bytes, to_lower}
use proxify.Go.Strings.Equality.{str_eq_refl, str_eq_of_ne}
use proxify.Go.Maps.{Map, lookup, insert, lookup-insert}
use proxify.Go.Http.{Request, Response, HttpLib}
use proxify.Swaggergen.Schemas.{Json}
use proxify.Swaggergen.Methods.{
  RequestResponse, Method, update_responses, method_for, SpecPath, new_parameters, new_method,
  update_method, new_path, update_path,
}
use proxify.Swaggergen.Specs.{Spec, path_at, path_for, add_path}

lookup-insert_self : {V : Type 0} (k : Bytes) (v : V) (m : Map V) → lookup k (insert k v m) ≡ some v
lookup-insert_self k v m = rw (lookup-insert, str_eq_refl) refl

module _ (unmarshal : Bytes → Outcome Json) (lib : HttpLib) where
  -- The path has the request's method, with the parameters of the request.
  abbrev pub Describes : Request → SpecPath → Type 0
  Describes req p =
      (m : Method) × (lookup (to_lower req.method) p ≡ some m)
      × (new_parameters unmarshal lib req ≡ ok m.parameters)

  new_method-parameters :
      (req : Request) (response : Option Response) (m : Method)
      → new_method unmarshal lib req response ≡ ok m
      → new_parameters unmarshal lib req ≡ ok m.parameters
  unfolding new_method
  new_method-parameters req response m h = ground arith

  update_method-parameters :
      (old : Method) (req : Request) (response : Option Response) (m : Method)
      → update_method unmarshal lib old req response ≡ ok m
      → new_parameters unmarshal lib req ≡ ok m.parameters
  unfolding update_method
  update_method-parameters old req response m h =
      let (responses, rest, made) =
        >>=-IsOk
          (λ rs. new_parameters unmarshal lib req >>= λ ps.
            ok (record old { responses = rs; parameters = ps }))
          (update_responses unmarshal lib old.responses response) h in
      ground arith

  method_for-parameters :
      (old : SpecPath) (req : Request) (response : Option Response) (m : Method)
      → method_for unmarshal lib old req response ≡ ok m
      → new_parameters unmarshal lib req ≡ ok m.parameters
  unfolding method_for
  method_for-parameters old req response m h =
      elim (Option-cases (lookup (to_lower req.method) old)) [
        | inl missing ↦ new_method-parameters req response m (ground arith)
        | inr (before, found) ↦ update_method-parameters before req response m (ground arith)
      ]

  new_path-Describes :
      (req : Request) (response : Option Response) (p : SpecPath)
      → new_path unmarshal lib req response ≡ ok p
      → Describes req p
  unfolding new_path
  new_path-Describes req response p h =
      let (m, last, made) = >>=-IsOk _ _ h in
      (
        m,
        ground (arith, lookup-insert_self (to_lower req.method) m []),
        new_method-parameters req response m made,
      )

  update_path-Describes :
      (old : SpecPath) (req : Request) (response : Option Response) (p : SpecPath)
      → update_path unmarshal lib old req response ≡ ok p
      → Describes req p
  unfolding update_path
  update_path-Describes old req response p h =
      let (m, last, made) =
        >>=-IsOk (λ m. ok (insert (to_lower req.method) m old))
          (method_for unmarshal lib old req response) h in
      (
        m,
        ground (arith, lookup-insert_self (to_lower req.method) m old),
        method_for-parameters old req response m made,
      )

  path_for-Describes :
      (paths : Map SpecPath) (req : Request) (response : Option Response) (p : SpecPath)
      → path_for unmarshal lib paths req response ≡ ok p
      → Describes req p
  unfolding path_for
  path_for-Describes paths req response p h = elim (Option-cases (lookup req.url.path paths)) [
    | inl missing ↦ new_path-Describes req response p (ground arith)
    | inr (before, found) ↦ update_path-Describes before req response p (ground arith)
  ]

  -- The map of paths before and after `add_path`, and the path that it enters.
  abbrev pub Enters : RequestResponse → Request → Spec → Spec → Map SpecPath → SpecPath → Type 0
  Enters r req s s' paths p =
      (s.paths ≡ some paths)
      × (path_for unmarshal lib paths req r.response ≡ ok p)
      × (s'.paths ≡ some (insert req.url.path p paths))

  pub add_path-Enters :
      (r : RequestResponse) (req : Request) (s s' : Spec)
      → r.request ≡ some req
      → add_path unmarshal lib r s ≡ ok s'
      → (paths : Map SpecPath) × (p : SpecPath) × Enters r req s s' paths p
  unfolding add_path
  add_path-Enters r req s s' hr h = elim (Option-cases s.paths) [
    | inl nil ↦
        let (p, never, made) =
          >>=-IsOk (λ p. panic) (new_path unmarshal lib req r.response) (rw nil at (rw hr at h)) in
        absurd (ground arith)
    | inr (paths, there) ↦
        let (p, last, made) =
          >>=-IsOk (λ p. ok (record s { paths = some (insert req.url.path p paths) }))
            (path_for unmarshal lib paths req r.response) (rw there at (rw hr at h)) in
        (paths, p, (there, made, ground arith))
  ]

  -- Whenever `add_path` succeeds for a request: the path of the request then has the method of
  -- the request, in small letters, with the parameters of this request, and every other path is
  -- as it was.
  pub add_path-Describes :
      (r : RequestResponse) (req : Request) (s s' : Spec)
      → r.request ≡ some req
      → add_path unmarshal lib r s ≡ ok s'
      → (p : SpecPath) × (path_at req.url.path s'.paths ≡ some p)
        × Describes req p
        × ((k : Bytes) → req.url.path ≢ k → path_at k s'.paths ≡ path_at k s.paths)
  add_path-Describes r req s s' hr h =
      let (paths, p, (there, made, grown)) = add_path-Enters r req s s' hr h in
      (
        p,
        rw grown (lookup-insert_self req.url.path p paths),
        path_for-Describes paths req r.response p made,
        λ k other. rw (grown, there, lookup-insert, str_eq_of_ne _ _ other) refl,
      )
