-- ===== src/Util.antt =====
-- pkg/util/util.go: the maps that the DSL reads, regex lists and the conjunction of matches.
pub mod Matching
use proxify.Common.{
  ℕ, ℤ, pos, String, Bool, true, false, ◌&&◌, Option, none, some, List, [], ◌∷◌, ◌++◌,
  if◌then◌else◌,
}
use proxify.Go.Outcome.{Outcome, ok, err, panic}
use proxify.Go.Strings.{Bytes, codes, join, replace_all, trim_space, to_lower}
use proxify.Go.Maps.{Map, insert}
use proxify.Go.Http.{
  Request, Response, Header, header_of, HttpLib, buffer, read_all, dump_request, dump_response,
}

-- `interface{}` as the DSL uses it.
pub data Value : Type 0 where
  bool : Bool → Value
  text : Bytes → Value
  bytes : Bytes → Value
  number : ℤ → Value

-- A header name as a DSL variable.
unfoldable pub variable_name : Bytes → Bytes
variable_name k = to_lower (trim_space (replace_all k b'-' (codes "_")))

-- The loop over the header: each field is entered, and the text of all headers grows.
unfoldable pub header_variables : Header → Map Value → Bytes → Map Value × Bytes
header_variables [] m headers = (m, headers)
header_variables ((k, v) ∷ h) m headers =
    let name = variable_name k in
    let vv = join v (codes " ") in
    header_variables h (insert name (text vv) m) (headers ++ (name ++ (codes ": " ++ vv)))

request_fields : HttpLib → Request → Bytes → Map Value → Map Value
request_fields lib req dump m =
    insert (codes "query") (text (lib.encode_query (lib.url_query req.url))) (
      insert (codes "url") (text (lib.url_string req.url)) (
        insert (codes "scheme") (text req.url.scheme) (
          insert (codes "host") (text req.url.host) (
            insert (codes "path") (text req.url.path) (
              insert (codes "method") (text req.method)
                (insert (codes "request") (text dump) (insert (codes "raw") (text dump) m)))))))

-- `HTTPRequestToMap`: the map, and the request after its body was read and put back.
unfoldable pub http_request_to_map : HttpLib → Request → Outcome (Map Value) × Request
unfolding request_fields
http_request_to_map lib req =
    let (m, headers) = header_variables req.header [] [] in
    let m' = insert (codes "all_headers") (text headers) m in
    let (result, rest) = read_all req.body in
    elim result [
      | panic ↦ (panic, record req { body = rest })
      | err e ↦ (err e, record req { body = rest })
      | ok content ↦
          let (dumped, after) = dump_request lib (record req { body = some (buffer content) }) in
          elim dumped [
            | panic ↦ (panic, after)
            | err e ↦ (err e, after)
            | ok dump ↦ (
              ok (request_fields lib after dump (insert (codes "body") (text content) m')),
              after,
            )
          ]
    ]

-- `HTTPResponseToMap`; a dump that fails leaves the map without `raw` and `response`.
unfoldable pub http_response_to_map : HttpLib → Response → Outcome (Map Value) × Response
http_response_to_map lib resp =
    let start =
      insert (codes "status_code") (number (pos resp.status_code))
        (insert (codes "content_length") (number resp.content_length) []) in
    let (m, headers) = header_variables (header_of resp.header) start [] in
    let m' = insert (codes "all_headers") (text headers) m in
    let (result, rest) = read_all resp.body in
    elim result [
      | panic ↦ (panic, record resp { body = rest })
      | err e ↦ (err e, record resp { body = rest })
      | ok content ↦
          let m'' = insert (codes "body") (text content) m' in
          let (dumped, after) = dump_response lib (record resp { body = some (buffer content) }) in
          elim dumped [
            | panic ↦ (panic, after)
            | err e ↦ (ok m'', after)
            | ok dump ↦ (
              ok (insert (codes "response") (text dump) (insert (codes "raw") (text dump) m'')),
              after,
            )
          ]
    ]

-- `MatchAnyRegex`. `match_string` is `regexp.MatchString`, which fails on a bad expression.
unfoldable pub match_any_regex : (Bytes → Bytes → Outcome Bool) → List Bytes → Bytes → Bool
match_any_regex match_string [] s = false
match_any_regex match_string (regex ∷ regexes) s =
    let rest = match_any_regex match_string regexes s in
    elim (match_string regex s) [ ok true ↦ true | _ ↦ rest ]

and_all : Bool → List Bool → Bool
and_all result [] = result
and_all result (b ∷ bs) = and_all (result && b) bs

-- `EvalBoolSlice`
unfoldable pub eval_bool_slice : List Bool → Bool
unfolding and_all
eval_bool_slice [] = false
eval_bool_slice (b ∷ bs) = and_all b (b ∷ bs)
