-- ===== src/Swaggergen/Safety.antt =====
-- When the updates of pkg/swaggergen never meet a nil pointer.
use proxify.Common.{
  ◌≡◌, ◌≢◌, refl, Option, none, some, List, [], ◌∷◌, All, Option-cases, Bool-cases, inl, inr,
}
use proxify.Go.Outcome.{Outcome, ok, panic, Succeeds, Succeeds->>=}
use proxify.Go.Strings.{Bytes, to_lower, str_eq}
use proxify.Go.Maps.{Map, lookup}
use proxify.Go.Http.{Request, Response, Header, HttpLib}
use proxify.Swaggergen.Schemas.{Json}
use proxify.Swaggergen.Methods.{
  RequestResponse, Method, Responses, SpecPath, response_at, query_parameters, body_schema,
  new_parameters, new_responses, response_for, update_responses, new_method, update_method,
  method_for, new_path, update_path,
}
use proxify.Swaggergen.Specs.{
  Spec, path_for, add_path, add_paths, new_spec, update_spec, create_spec,
}
use proxify.Swaggergen.SafeResponses.{
  AllValues, AllValues-insert, AllValues-lookup, AllValues-set_response, AllValues-response_at,
  IsSafeResponse, IsSafeResponses, IsSafeMethod, IsSafePath, IsSafe, IsWhole, new_schema-Succeeds,
  new_response-Succeeds, update_response-Succeeds,
}

module _ (lib : HttpLib) where
  -- Every key of the query has a value.
  abbrev pub IsValued : Request → Type 0
  IsValued req = All (λ e. e.1 ≢ []) (lib.url_query req.url)

  -- A request that was read, with values in its query, and a whole response, if there is one.
  abbrev pub IsUsable : RequestResponse → Type 0
  IsUsable r = (req : Request) × (r.request ≡ some req) × IsValued req × IsWhole r.response

-- A safe specification is read, or there is none.
abbrev pub IsSafeFile : Option Spec → Type 0
IsSafeFile none = Unit
IsSafeFile (some s) = IsSafe s

module _ (unmarshal : Bytes → Outcome Json) (calm : (s : Bytes) → unmarshal s ≢ panic)
    (lib : HttpLib) where
  query_parameters-Succeeds :
      (q : Header) → All (λ e. e.1 ≢ []) q → Succeeds (λ _. Unit {0}) (query_parameters q)
  unfolding query_parameters
  query_parameters-Succeeds [] h = ([], refl, tt)
  query_parameters-Succeeds ((key, []) ∷ q) (n, h) = absurd (n refl)
  query_parameters-Succeeds ((key, v ∷ vs) ∷ q) (n, h) =
      Succeeds->>= (query_parameters-Succeeds q h) (λ params _. (_, refl, tt))

  body_schema-Succeeds : (req : Request) → Succeeds (λ _. Unit {0}) (body_schema unmarshal lib req)
  unfolding body_schema
  body_schema-Succeeds req = elim (Option-cases req.body) [
    | inl e ↦ (none, rw e refl, tt)
    | inr (b, e) ↦ rw (e, body_schema) (new_schema-Succeeds unmarshal calm b)
  ]

  new_parameters-Succeeds :
      (req : Request)
      → IsValued lib req
      → Succeeds (λ _. Unit {0}) (new_parameters unmarshal lib req)
  unfolding new_parameters
  new_parameters-Succeeds req h = Succeeds->>= (body_schema-Succeeds req) (λ s _.
      Succeeds->>= (query_parameters-Succeeds (lib.url_query req.url) h)
        (λ params _. (_, refl, tt)))

  new_method-Succeeds :
      (req : Request) (response : Option Response)
      → IsValued lib req
      → IsWhole response
      → Succeeds IsSafeMethod (new_method unmarshal lib req response)
  unfolding new_method new_responses
  new_method-Succeeds req none h w =
      Succeeds->>= (new_parameters-Succeeds req h) (λ params _. (_, refl, ([], refl, tt)))
  new_method-Succeeds req (some res) h w = Succeeds->>= (new_parameters-Succeeds req h) (λ params _.
      Succeeds->>=
        (Succeeds->>= (new_response-Succeeds unmarshal calm res w)
          (λ r safe. ((res.status_code, r) ∷ [], refl, (safe, tt))))
        (λ (rs : Responses) (safe : AllValues IsSafeResponse rs). (_, refl, (rs, refl, safe))))

  response_for-Succeeds :
      (rs : Responses) (res : Response)
      → AllValues IsSafeResponse rs
      → IsWhole (some res)
      → Succeeds IsSafeResponse (response_for unmarshal lib rs res)
  unfolding response_for
  response_for-Succeeds rs res safe w = elim (Option-cases (response_at res.status_code rs)) [
    | inl new ↦ rw (new, response_for) (new_response-Succeeds unmarshal calm res w)
    | inr (r, known) ↦
        rw (known, response_for)
          (update_response-Succeeds unmarshal calm r res
            (AllValues-response_at IsSafeResponse res.status_code r rs known safe) w)
  ]

  update_responses-Succeeds :
      (rs : Responses) (response : Option Response)
      → AllValues IsSafeResponse rs
      → IsWhole response
      → Succeeds IsSafeResponses (update_responses unmarshal lib (some rs) response)
  unfolding update_responses
  update_responses-Succeeds rs none safe w = (some rs, refl, (rs, refl, safe))
  update_responses-Succeeds rs (some res) safe w =
      Succeeds->>= (response_for-Succeeds rs res safe w) (λ r q.
        (_, refl, (_, refl, AllValues-set_response IsSafeResponse res.status_code r rs q safe)))

  update_method-Succeeds :
      (m : Method) (req : Request) (response : Option Response)
      → IsSafeMethod m
      → IsValued lib req
      → IsWhole response
      → Succeeds IsSafeMethod (update_method unmarshal lib m req response)
  unfolding update_method
  update_method-Succeeds m req response safe h w =
      let (old, there, kept) = safe in
      rw (there, update_method)
        (Succeeds->>= (update_responses-Succeeds old response kept w)
          (λ rs safe'. Succeeds->>= (new_parameters-Succeeds req h) (λ params _. (_, refl, safe'))))

  method_for-Succeeds :
      (p : SpecPath) (req : Request) (response : Option Response)
      → IsSafePath p
      → IsValued lib req
      → IsWhole response
      → Succeeds IsSafeMethod (method_for unmarshal lib p req response)
  unfolding method_for
  method_for-Succeeds p req response safe h w =
      elim (Option-cases (lookup (to_lower req.method) p)) [
        | inl new ↦ rw (new, method_for) (new_method-Succeeds req response h w)
        | inr (m, known) ↦
            rw (known, method_for)
              (update_method-Succeeds m req response
                (AllValues-lookup IsSafeMethod (to_lower req.method) m p known safe) h w)
      ]

  path_for-Succeeds :
      (paths : Map SpecPath) (req : Request) (response : Option Response)
      → AllValues IsSafePath paths
      → IsValued lib req
      → IsWhole response
      → Succeeds IsSafePath (path_for unmarshal lib paths req response)
  unfolding path_for new_path update_path
  path_for-Succeeds paths req response safe h w = elim (Option-cases (lookup req.url.path paths)) [
    | inl new ↦
        rw (new, path_for)
          (Succeeds->>= (new_method-Succeeds req response h w)
            (λ m q. (_, refl, AllValues-insert IsSafeMethod (to_lower req.method) m [] q tt)))
    | inr (p, known) ↦
        let q = AllValues-lookup IsSafePath req.url.path p paths known safe in
        rw (known, path_for)
          (Succeeds->>= (method_for-Succeeds p req response q h w)
            (λ m q'. (_, refl, AllValues-insert IsSafeMethod (to_lower req.method) m p q' q)))
  ]

  add_path-IsSafe :
      (r : RequestResponse) (req : Request) (s : Spec)
      → IsSafe s
      → r.request ≡ some req
      → IsValued lib req
      → IsWhole r.response
      → (s' : Spec) × (add_path unmarshal lib r s ≡ ok s') × IsSafe s'
  unfolding add_path
  add_path-IsSafe r req s safe hr h w =
      let (paths, there, kept, informed) = safe in
      rw (hr, add_path)
        (rw (there, add_path)
          (Succeeds->>= (path_for-Succeeds paths req r.response kept h w) (λ p q. (
            _,
            refl,
            (_, refl, AllValues-insert IsSafePath req.url.path p paths q kept, informed),
          ))))

  add_paths-Succeeds :
      (api : Bytes) (rs : List RequestResponse) (s : Spec)
      → IsSafe s
      → All (IsUsable lib) rs
      → Succeeds IsSafe (add_paths unmarshal lib api rs s)
  unfolding add_paths
  add_paths-Succeeds api [] s safe _ = (s, refl, safe)
  add_paths-Succeeds api (r ∷ rs) s safe ((req, hr, h, w), us) =
      elim (Bool-cases (str_eq req.host api)) [
        | inl ours ↦
            rw (hr, add_paths, ours)
              (Succeeds->>= (add_path-IsSafe r req s safe hr h w)
                (λ s' safe'. add_paths-Succeeds api rs s' safe' us))
        | inr other ↦ rw (hr, add_paths, other) (add_paths-Succeeds api rs s safe us)
      ]

  -- When the JSON reader does not panic: for requests that were read and whose query keys have
  -- values, with responses that have a header and a body, and a specification that is new, or
  -- has its info, its paths and the responses of each method and holds no nil response or
  -- content, `create_spec` meets no nil pointer or map: it yields a specification of which the
  -- same holds.
  pub create_spec-IsSafe :
      (log_dir api : Bytes) (rs : List RequestResponse) (old : Option Spec)
      → All (IsUsable lib) rs
      → IsSafeFile old
      → (s : Spec) × (create_spec unmarshal lib log_dir api rs old ≡ ok s) × IsSafe s
  unfolding create_spec new_spec update_spec
  create_spec-IsSafe log_dir api rs none us safe =
      add_paths-Succeeds api rs _ ([], refl, tt, λ e. cc) us
  create_spec-IsSafe log_dir api rs (some s) us (paths, there, kept, informed) =
      elim (Option-cases s.info) [
        | inl nil ↦ absurd (informed nil)
        | inr (info, known) ↦
            rw (known, create_spec) (add_paths-Succeeds api rs _ (paths, there, kept, λ e. cc) us)
      ]
