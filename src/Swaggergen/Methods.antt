-- ===== src/Swaggergen/Methods.antt =====
-- pkg/swaggergen/parameter.go, method.go, path.go and requestresponse.go.
use proxify.Common.{ℕ, Bool, true, Option, none, some, List, [], ◌∷◌, ◌++◌, ◌==◌, if◌then◌else◌}
use proxify.Go.Outcome.{Outcome, ok, panic, ◌>>=◌}
use proxify.Go.Strings.{Bytes, codes, to_lower}
use proxify.Go.Maps.{Map, lookup, insert}
use proxify.Go.Http.{Request, Response, Header, HttpLib}
use proxify.Swaggergen.Schemas.{Json, Schema, schema, no_properties, new_schema}
use proxify.Swaggergen.Responses.{SpecResponse, new_response, update_response}

pub record Parameter : Type 0 where
  pub name : Bytes
  pub place : Bytes
  pub description : Bytes
  pub required : Bool
  pub schema : Option Schema

-- The responses of a method by status code.
abbrev pub Responses : Type 0
Responses = List (ℕ × Option SpecResponse)

pub record Method : Type 0 where
  pub summary : Bytes
  -- nil where a file gives none
  pub responses : Option Responses
  pub parameters : List Parameter

-- `Path`: the methods by their names in small letters.
abbrev pub SpecPath : Type 0
SpecPath = Map Method

pub record RequestResponse : Type 0 where
  pub request : Option Request
  pub response : Option Response

unfoldable pub response_at : ℕ → Responses → Option (Option SpecResponse)
response_at k [] = none
response_at k ((j, r) ∷ rs) = if j == k then some r else response_at k rs

unfoldable pub set_response : ℕ → Option SpecResponse → Responses → Responses
set_response k r [] = (k, r) ∷ []
set_response k r ((j, s) ∷ rs) = if j == k then (k, r) ∷ rs else (j, s) ∷ set_response k r rs

-- The loop over the query; a key without a value panics.
unfoldable pub query_parameters : Header → Outcome (List Parameter)
query_parameters [] = ok []
query_parameters ((key, []) ∷ q) = panic
query_parameters ((key, v ∷ vs) ∷ q) = query_parameters q >>= λ params. ok (
    record {
      name = key;
      place = codes "query";
      description = v;
      required = true;
      schema = some (schema (codes "string") no_properties []);
    }
    ∷ params)

unfoldable pub body_parameters : Option Schema → List Parameter
body_parameters none = []
body_parameters (some s) =
    record {
      name = codes "body";
      place = codes "body";
      description = [];
      required = true;
      schema = some s;
    }
    ∷ []

module _ (unmarshal : Bytes → Outcome Json) (lib : HttpLib) where
  unfoldable pub body_schema : Request → Outcome (Option Schema)
  body_schema req = elim req.body [ none ↦ ok none | some b ↦ new_schema unmarshal (some b) ]

  -- `NewParameters`
  unfoldable pub new_parameters : Request → Outcome (List Parameter)
  unfolding query_parameters body_parameters body_schema
  new_parameters req = do
    s ← body_schema req
    params ← query_parameters (lib.url_query req.url)
    ok (body_parameters s ++ params)

  unfoldable pub new_responses : Option Response → Outcome Responses
  new_responses none = ok []
  new_responses (some res) = new_response unmarshal res >>= λ r. ok ((res.status_code, r) ∷ [])

  -- `NewMethod`
  unfoldable pub new_method : Request → Option Response → Outcome Method
  unfolding new_responses
  new_method req response = do
    params ← new_parameters req
    responses ← new_responses response
    ok (record { summary = []; responses = some responses; parameters = params })

  -- The response for a status: a new one, or the old one updated.
  unfoldable pub response_for : Responses → Response → Outcome (Option SpecResponse)
  response_for responses res = elim (response_at res.status_code responses) [
    | none ↦ new_response unmarshal res
    | some old ↦ update_response unmarshal old res
  ]

  -- The responses of `UpdateMethod`: a nil map is read, but it cannot be assigned to.
  unfoldable pub update_responses : Option Responses → Option Response → Outcome (Option Responses)
  unfolding response_for
  update_responses responses none = ok responses
  update_responses none (some res) = new_response unmarshal res >>= λ r. panic
  update_responses (some responses) (some res) =
      response_for responses res >>= λ r. ok (some (set_response res.status_code r responses))

  -- `UpdateMethod`
  unfoldable pub update_method : Method → Request → Option Response → Outcome Method
  unfolding update_responses
  update_method m req response = do
    responses ← update_responses m.responses response
    params ← new_parameters req
    ok (record m { responses = responses; parameters = params })

  -- `NewPath`
  unfoldable pub new_path : Request → Option Response → Outcome SpecPath
  new_path req response = new_method req response >>= λ m. ok (insert (to_lower req.method) m [])

  -- The method of a path: a new one, or the old one updated.
  unfoldable pub method_for : SpecPath → Request → Option Response → Outcome Method
  method_for path req response = elim (lookup (to_lower req.method) path) [
    | none ↦ new_method req response
    | some old ↦ update_method old req response
  ]

  -- `UpdatePath`
  unfoldable pub update_path : SpecPath → Request → Option Response → Outcome SpecPath
  unfolding method_for
  update_path path req response =
      method_for path req response >>= λ m. ok (insert (to_lower req.method) m path)
