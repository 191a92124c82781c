-- ===== src/Proxy/Modify.antt =====
-- `ModifyRequest` and `ModifyResponse` of proxy.go.
pub mod Filters
pub mod Transparency
pub mod Redirects
pub mod Statuses
use proxify.Common.{
  ℕ, ℤ, negsuc, Bool, true, false, not, ◌&&◌, ◌||◌, Option, none, some, List, [], ◌∷◌, ◌++◌, ◌==◌,
  if◌then◌else◌, is_empty,
}
use proxify.Go.Outcome.{Outcome, ok, err, panic, ◌>>=◌}
use proxify.Go.Strings.{Bytes, codes, str_eq, split, join, replace_all}
use proxify.Go.Maps.{Map}
use proxify.Go.Http.{Request, Response, HttpLib, header_get, header_set, header_del}
use proxify.Types.{UserData}
use proxify.Util.{Value, bool, http_request_to_map, http_response_to_map, eval_bool_slice}
use proxify.Logger.Queue.{Entry, asked, answered}
use proxify.Proxy.Env.{ProxyLib, Options, Callback}
use proxify.Proxy.Replace.{match_replace_request, match_replace_response, is_zero}

-- The loop over the filter expressions of a message of type `M`, whose map `to_map` makes. A map
-- that cannot be made is nil; an expression that fails counts as false; a value that is no
-- Boolean panics.
module _ {M : Type 0} (to_map : M → Outcome (Map Value) × M)
    (eval : Bytes → Map Value → Outcome Value) where
  unfoldable pub eval_filters : List Bytes → M → List Bool → Outcome (List Bool) × M
  eval_filters [] m results = (ok results, m)
  eval_filters (expr ∷ exprs) m results =
      let (made, m') = to_map m in
      elim made [
        | panic ↦ (panic, m')
        | err e ↦ elim (eval expr []) [
          | panic ↦ (panic, m')
          | err e' ↦ eval_filters exprs m' (results ++ (false ∷ []))
          | ok (bool b) ↦ eval_filters exprs m' (results ++ (b ∷ []))
          | ok _ ↦ (panic, m')
        ]
        | ok vars ↦ elim (eval expr vars) [
          | panic ↦ (panic, m')
          | err e' ↦ eval_filters exprs m' (results ++ (false ∷ []))
          | ok (bool b) ↦ eval_filters exprs m' (results ++ (b ∷ []))
          | ok _ ↦ (panic, m')
        ]
      ]

-- `removeBrEncoding`
unfoldable pub remove_br_encoding : ProxyLib → Request → Request
remove_br_encoding lib req =
    let listed = header_get (codes "Accept-Encoding") req.header in
    let encodings = lib.prune_equal (split (replace_all listed b' ' []) b',') (codes "br") in
    record req {
      header = header_set (codes "Accept-Encoding") (join encodings (codes ", ")) req.header;
    }

-- The status of a request: unset without filters.
unfoldable pub request_match : List Bool → Option Bool
request_match results = if is_empty results then none else some (eval_bool_slice results)

-- The status of a response: unset filters leave that of the request.
unfoldable pub response_match : Option Bool → List Bool → Option Bool
response_match old [] = old
response_match none (b ∷ bs) = some (eval_bool_slice (b ∷ bs))
response_match (some old) (b ∷ bs) = some (old && eval_bool_slice (b ∷ bs))

-- What a modifier leaves: the message, the "user-data" of the context, and what was logged.
pub record Modified (M : Type 0) : Type 0 where
  pub message : M
  pub user_data : Option UserData
  pub logged : List Entry

abbrev untouched : {M : Type 0} → Option UserData → M → Modified M
untouched u m = record { message = m; user_data = u; logged = [] }

-- The last part of `ModifyRequest`, with the match status known.
finish_request : ProxyLib → Options → UserData → Request → Outcome (Unit {0}) × Modified Request
finish_request lib o userdata req =
    let (replaced, req') : Outcome (Unit {0}) × Request =
      if is_empty o.request_match_replace_dsl
      then (ok tt, req)
      else match_replace_request lib o.request_match_replace_dsl req in
    let sent = remove_br_encoding lib req' in
    let done : Outcome (Unit {0}) × Modified Request = (
      ok tt,
      record {
        message = sent;
        user_data = some userdata;
        logged = asked userdata (some sent) ∷ [];
      },
    ) in
    elim replaced [ panic ↦ (panic, untouched (some userdata) req') | _ ↦ done ]

-- `ModifyRequest` for a request with the context's id.
unfoldable pub modify_request :
    ProxyLib → Options → Bytes → Request → Outcome (Unit {0}) × Modified Request
unfolding finish_request
modify_request lib o id given =
    let req : Request = record given { content_length = negsuc 0 } in
    if lib.equal_fold_any req.host
      (codes "proxify" ∷ codes "proxify:443" ∷ codes "proxify:80" ∷ o.listen_addr ∷ [])
    then (lib.hijack_n_serve req, untouched none req)
    else elim o.on_request_callback [
      | some callback ↦ let (result, req') = callback req in (result, untouched none req')
      | none ↦
          let (filtered, req') =
            eval_filters (http_request_to_map lib.http) lib.eval_expr o.request_dsl req [] in
          elim filtered [
            | panic ↦ (panic, untouched none req')
            | err e ↦ (err e, untouched none req')
            | ok results ↦
                finish_request lib o
                  (record {
                    id = id;
                    match = request_match results;
                    has_response = false;
                    host = req.host;
                  })
                  req'
          ]
    ]

-- The end of `ModifyResponse`: a redirect to another host, or to none, closes the connection.
unfoldable pub close_redirect : ProxyLib → Response → Outcome Response
close_redirect lib resp =
    if resp.status_code == 301 || resp.status_code == 302
    then elim (lib.http.location_host resp) [
      | panic ↦ panic
      | err e ↦ ok (record resp { close = true })
      | ok host ↦ elim resp.request [
        | none ↦ panic
        | some req ↦ if str_eq host req.host then ok resp else ok (record resp { close = true })
      ]
    ]
    else ok resp

-- The last part of `ModifyResponse`, with the match status known.
unfoldable pub finish_modify :
    ProxyLib
    → Options
    → Option UserData
    → UserData
    → Response
    → Outcome (Unit {0}) × Modified Response
finish_modify lib o context userdata resp =
    let (replaced, resp') : Outcome (Unit {0}) × Response =
      if is_empty o.response_match_replace_dsl
      then (ok tt, resp)
      else match_replace_response lib o.response_match_replace_dsl resp in
    let entries = answered userdata (some resp') ∷ [] in
    let leave : Response → Modified Response =
      λ r. record { message = r; user_data = context; logged = entries } in
    let done : Outcome (Unit {0}) × Modified Response = elim (close_redirect lib resp') [
      | panic ↦ (panic, leave resp')
      | err e ↦ (err e, leave resp')
      | ok r ↦ (ok tt, leave r)
    ] in
    elim replaced [ panic ↦ (panic, untouched context resp') | _ ↦ done ]

-- The user data that a response starts from: that of the context, or the empty one.
unfoldable pub start_user_data : Option UserData → UserData
start_user_data none = record { id = []; match = none; has_response = true; host = [] }
start_user_data (some u) = record u { has_response = true }

-- `ModifyResponse` in a context with this "user-data". The context keeps its own copy.
unfoldable pub modify_response :
    ProxyLib → Options → Option UserData → Response → Outcome (Unit {0}) × Modified Response
unfolding finish_modify
modify_response lib o context given =
    let userdata = start_user_data context in
    let resp : Response = record given {
      header =
          if is_zero given.content_length
          then header_del (codes "Content-Length") given.header
          else given.header;
    } in
    elim o.on_response_callback [
      | some callback ↦ let (result, resp') = callback resp in (result, untouched context resp')
      | none ↦
          let (filtered, resp') =
            eval_filters (http_response_to_map lib.http) lib.eval_expr o.response_dsl resp [] in
          elim filtered [
            | panic ↦ (panic, untouched context resp')
            | err e ↦ (err e, untouched context resp')
            | ok results ↦
                finish_modify lib o context
                  (record userdata { match = response_match userdata.match results }) resp'
          ]
    ]
