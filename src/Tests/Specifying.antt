-- ===== src/Tests/Specifying.antt =====
-- Tests of pkg/swaggergen.
use proxify.Common.{[], ◌∷◌, ◌≡◌, ◌≢◌, refl, true, none, some}
use proxify.Go.Outcome.{Outcome, ok, err, panic, ◌>>=◌}
use proxify.Go.Strings.{Bytes, codes, str_eq, to_lower}
use proxify.Go.Maps.{lookup, insert}
use proxify.Go.Http.{read_all}
use proxify.Swaggergen.Schemas.{Json, field, no_fields, number, object, new_schema}
use proxify.Swaggergen.Methods.{
  RequestResponse, SpecPath, new_path, update_path, method_for, update_method, update_responses,
  response_for, response_at, new_method, new_parameters, body_schema, query_parameters,
  body_parameters, new_responses,
}
use proxify.Swaggergen.Responses.{new_response, update_response, new_content}
use proxify.Swaggergen.Specs.{Spec, path_at, add_path, path_for, new_spec, update_spec, has_server}
use proxify.Swaggergen.Servers.{IsDistinct, update_spec-IsDistinct}
use proxify.Swaggergen.Additions.{Describes, add_path-Describes}
use proxify.Tests.Fixtures.{http, question, answer}

-- Every text is an object with one number.
abbrev unmarshal : Bytes → Outcome Json
unmarshal s = ok (object (field (codes "n") (number s) no_fields))

abbrev pair : RequestResponse
pair = record { request = some question; response = some answer }

abbrev first : Spec
first = new_spec (codes "logs") (codes "a-b.c")

update_spec-IsDistinct_example :
    (s' : Spec) × (update_spec (codes "more") (codes "d.e") first ≡ ok s')
    × IsDistinct s'.servers
    × (has_server (codes "d.e") s'.servers ≡ true)
    × ((url : Bytes) → has_server url first.servers ≡ true → has_server url s'.servers ≡ true)
unfolding new_spec has_server
update_spec-IsDistinct_example =
    update_spec-IsDistinct (codes "more") (codes "d.e") first _ refl (refl, tt)

-- The specification after the first pair; the failures do not arise.
abbrev grown : Spec
unfolding add_path
grown = elim (add_path unmarshal http pair first) [ ok s ↦ s | err e ↦ first | panic ↦ first ]

add_path-Describes_example :
    (p : SpecPath) × (path_at (codes "/p") grown.paths ≡ some p)
    × Describes unmarshal http question p
    × ((k : Bytes) → codes "/p" ≢ k → path_at k grown.paths ≡ path_at k first.paths)
unfolding add_path path_for new_path new_method new_parameters body_schema new_schema read_all
    query_parameters body_parameters new_responses new_response new_content lookup new_spec
add_path-Describes_example = add_path-Describes unmarshal http pair question first grown refl refl

-- A response without a header is stored as nil, and the next response of its kind panics.
abbrev headless : Spec → Outcome Spec
headless s =
    add_path unmarshal http
      (record { request = some question; response = some (record answer { header = none }) }) s

nil_response : (headless first >>= λ s. add_path unmarshal http pair s) ≡ panic
unfolding new_spec add_path path_for new_path update_path method_for update_method update_responses
    response_for response_at new_method new_parameters body_schema new_schema read_all
    query_parameters body_parameters new_responses new_response update_response lookup insert
    to_lower codes str_eq
nil_response = refl

-- The specification without the responses of its method, as it is read back from a file in which
-- they were left out: a response for this method panics.
abbrev bare : Spec
bare = record first {
  paths = some (
      (codes "/p", (codes "get", record { summary = []; responses = none; parameters = [] }) ∷ [])
      ∷ []);
}

nil_responses : add_path unmarshal http pair bare ≡ panic
unfolding add_path path_for update_path method_for update_method update_responses new_response
    new_content new_schema read_all lookup to_lower codes str_eq
nil_responses = refl
