-- ===== src/Types/Records.antt =====
-- The structured records of pkg/types/userdata.go: what they hold of a message.
use proxify.Common.{◌≡◌, refl, Option, none, some, [], ◌∷◌, arith, if◌then◌else◌}
use proxify.Go.Outcome.{ok}
use proxify.Go.Strings.{Bytes, codes, join, str_eq}
use proxify.Go.Maps.{Map, lookup, lookup-insert}
use proxify.Go.Http.{Request, buffer, Header, HttpLib, read_all, dump_request}
use proxify.Types.{HttpRequest, join_headers, builtin_headers, new_http_request_data}

-- The value of the last field of a header with this key, joined; what a map that was filled in
-- order holds.
pub last_joined : Bytes → Header → Option Bytes → Option Bytes
last_joined k [] old = old
last_joined k ((j, vs) ∷ h) old =
    last_joined k h (if str_eq j k then some (join vs (codes ", ")) else old)

lookup-join_headers :
    (k : Bytes) (h : Header) (m : Map Bytes)
    → lookup k (join_headers h m) ≡ last_joined k h (lookup k m)
unfolding join_headers last_joined
lookup-join_headers k [] m = refl
lookup-join_headers k ((j, vs) ∷ h) m = rw (lookup-join_headers k h _, lookup-insert j k _ m) refl

-- The fields that the record adds to those of the message.
abbrev pub url_field : Request → Bytes → Option Bytes
url_field req k =
    if str_eq (codes "host") k
    then some req.url.host
    else if str_eq (codes "path") k
    then some req.url.path
    else if str_eq (codes "method") k
    then some req.method
    else if str_eq (codes "scheme") k
    then some req.url.scheme
    else none

lookup-builtin_headers :
    (req : Request) (k : Bytes) → lookup k (builtin_headers req) ≡ url_field req k
unfolding builtin_headers
lookup-builtin_headers req k =
    rw (lookup-insert, lookup-insert, lookup-insert, lookup-insert) (unfold lookup in refl)

-- What a record holds that is complete: the body, the dump, and each header field under its key,
-- the last of a key that is repeated, over the fields of the URL.
pub record IsComplete (req : Request) (content dump : Bytes) (log : HttpRequest) : Type 0 where
  pub body : log.body ≡ content
  pub raw : log.raw ≡ dump
  pub fields : (k : Bytes) → lookup k log.header ≡ last_joined k req.header (url_field req k)

-- For a request whose body can be read and that can be dumped, the record is made and is
-- complete: it holds the body and the dump, and under each header key the joined values of the
-- last field with that key, or else what the request itself gives for host, path, method and
-- scheme. The request can be read again as before.
pub new_http_request_data-IsComplete :
    (lib : HttpLib) (req : Request) (content raw : Bytes)
    → req.body ≡ some (buffer content)
    → lib.dump_with_body req ≡ ok raw
    → (log : HttpRequest) × (new_http_request_data lib req ≡ (ok log, req))
      × IsComplete req content raw log
unfolding new_http_request_data read_all dump_request
new_http_request_data-IsComplete lib req content raw hb hd = (
  record { header = join_headers req.header (builtin_headers req); body = content; raw = raw },
  ground arith,
  record {
    body = refl;
    raw = refl;
    fields = λ k. rw (lookup-join_headers k req.header _, lookup-builtin_headers req k);
  },
)
