-- ===== src/Types.antt =====
-- pkg/types: the data of a transaction (userdata.go) and the verbosity levels (verbosity.go).
pub mod Records
use proxify.Common.{ℕ, Bool, Option, none, some, List, [], ◌∷◌}
use proxify.Go.Outcome.{Outcome, ok, err, panic}
use proxify.Go.Strings.{Bytes, codes, join}
use proxify.Go.Maps.{Map, insert}
use proxify.Go.Http.{
  Request, Response, Header, header_of, HttpLib, Body, buffer, read_all, dump_request,
}

pub record UserData : Type 0 where
  pub id : Bytes
  pub match : Option Bool
  pub has_response : Bool
  pub host : Bytes

-- The field `Data` is `data_bytes` here.
pub record HttpTransaction : Type 0 where
  pub userdata : UserData
  pub raw_data : Bytes
  pub data_bytes : Bytes
  pub data_string : Bytes
  pub name : Bytes
  pub part_suffix : Bytes
  pub format : Bytes
  pub request : Option Request
  pub response : Option Response

pub record HttpRequest : Type 0 where
  pub header : Map Bytes
  pub body : Bytes
  pub raw : Bytes

pub record HttpResponse : Type 0 where
  pub header : Map Bytes
  pub body : Bytes
  pub raw : Bytes

pub record HttpRequestResponseLog : Type 0 where
  pub timestamp : Bytes
  pub url : Bytes
  pub request : Option HttpRequest
  pub response : Option HttpResponse

-- What a filled `ResponseChain` of the utils package holds: the response, the dump of its
-- headers, its body, and both together.
pub record ResponseChain : Type 0 where
  pub response : Response
  pub headers : Bytes
  pub body : Bytes
  pub full_response : Bytes

pub data Verbosity : Type 0 where
  silent default_level verbose very_verbose : Verbosity

-- The number that `iota` gives a level, by which levels are compared.
abbrev pub level : Verbosity → ℕ
level silent = 0
level default_level = 1
level verbose = 2
level very_verbose = 3

-- The loop that copies header fields, values joined by ", ".
unfoldable pub join_headers : Header → Map Bytes → Map Bytes
join_headers [] m = m
join_headers ((key, values) ∷ h) m = join_headers h (insert key (join values (codes ", ")) m)

builtin_headers : Request → Map Bytes
builtin_headers req = insert (codes "host") req.url.host (
    insert (codes "path") req.url.path
      (insert (codes "method") req.method (insert (codes "scheme") req.url.scheme [])))

-- `NewHttpRequestData`: the record, and the request after its body was read and put back.
unfoldable pub new_http_request_data : HttpLib → Request → Outcome HttpRequest × Request
unfolding builtin_headers
new_http_request_data lib req =
    let header = join_headers req.header (builtin_headers req) in
    let (result, rest) = read_all req.body in
    elim result [
      | panic ↦ (panic, record req { body = rest })
      | err e ↦ (err e, record req { body = rest })
      | ok content ↦
          let (dump, after) = dump_request lib (record req { body = some (buffer content) }) in
          elim dump [
            | panic ↦ (panic, after)
            | err e ↦ (err e, after)
            | ok raw ↦ (ok (record { header = header; body = content; raw = raw }), after)
          ]
    ]

-- `NewHttpResponseData`
unfoldable pub new_http_response_data : ResponseChain → HttpResponse
new_http_response_data chain = record {
  header = join_headers (header_of chain.response.header) [];
  body = chain.body;
  raw = chain.headers;
}
