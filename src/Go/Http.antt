-- ===== src/Go/Http.antt =====
-- The parts of net/http, net/url and net/http/httputil that the program touches: requests and
-- responses with bodies that are readers, and a record of the library calls on them.
use proxify.Common.{◌≡◌, refl, ℕ, ℤ, Bool, Option, none, some, List, [], ◌∷◌}
use proxify.Go.Outcome.{Outcome, Error, ok, err, panic}
use proxify.Go.Strings.{Bytes}
use proxify.Go.Strings.Equality.{str_eq_refl}
use proxify.Go.Maps.{Map, lookup, insert, delete, lookup-insert, insert_twice}

-- A reader: the bytes that are left, and the error that comes after them (`none` is io.EOF).
pub record Body : Type 0 where
  pub content : Bytes
  pub failure : Option Error

-- `io.NopCloser(bytes.NewBuffer(s))`
abbrev pub buffer : Bytes → Body
buffer s = record { content = s; failure = none }

abbrev pub drained : Body → Body
drained b = record b { content = [] }

-- `io.ReadAll(body)` and the reader after it. A nil reader panics.
unfoldable pub read_all : Option Body → Outcome Bytes × Option Body
read_all none = (panic, none)
read_all (some b) = (elim b.failure [ none ↦ ok b.content | some e ↦ err e ], some (drained b))

abbrev pub Header : Type 0
Header = Map (List Bytes)

first_value : Option (List Bytes) → Bytes
first_value (some (v ∷ vs)) = v
first_value _ = []

-- `Header.Get`, `Set` and `Del` at a key in canonical form.
unfoldable pub header_get : Bytes → Header → Bytes
unfolding first_value
header_get k h = first_value (lookup k h)

unfoldable pub header_set : Bytes → Bytes → Header → Header
header_set k v h = insert k (v ∷ []) h

pub record Url : Type 0 where
  pub scheme : Bytes
  pub host : Bytes
  pub path : Bytes
  pub raw_query : Bytes

pub record Request : Type 0 where
  pub method : Bytes
  pub url : Url
  pub header : Header
  pub host : Bytes
  pub body : Option Body
  pub content_length : ℤ

pub record Response : Type 0 where
  pub status_code : ℕ
  pub header : Option Header
  pub body : Option Body
  pub content_length : ℤ
  pub close : Bool
  pub request : Option Request

-- Reading a nil map reads an empty one, and deleting from it does nothing.
abbrev pub header_of : Option Header → Header
header_of none = []
header_of (some h) = h

unfoldable pub header_del : Bytes → Option Header → Option Header
header_del k none = none
header_del k (some h) = some (delete k h)

-- The library calls. The dumps are those of a message whose body can be read.
pub record HttpLib : Type 0 where
  pub dump_with_body : Request → Outcome Bytes
  pub dump_without_body : Request → Outcome Bytes
  pub dump_response_text : Response → Outcome Bytes
  pub read_request : Bytes → Outcome Request
  pub read_response : Bytes → Outcome Response
  pub url_string : Url → Bytes
  pub url_query : Url → Header
  pub encode_query : Header → Bytes
  pub location_host : Response → Outcome Bytes

module _ (lib : HttpLib) where
  -- `httputil.DumpRequest(req, true)` reads the body and puts a reader of the same bytes in its
  -- place; where the body cannot be read it fails, and what was read is gone.
  unfoldable pub dump_request : Request → Outcome Bytes × Request
  dump_request req = elim req.body [
    | none ↦ (lib.dump_with_body req, req)
    | some b ↦ elim b.failure [
      | none ↦ (lib.dump_with_body req, req)
      | some e ↦ (err e, record req { body = some (drained b) })
    ]
  ]

  -- `httputil.DumpResponse(resp, true)`, likewise.
  unfoldable pub dump_response : Response → Outcome Bytes × Response
  dump_response resp = elim resp.body [
    | none ↦ (lib.dump_response_text resp, resp)
    | some b ↦ elim b.failure [
      | none ↦ (lib.dump_response_text resp, resp)
      | some e ↦ (err e, record resp { body = some (drained b) })
    ]
  ]

pub header_get-header_set : (k v : Bytes) (h : Header) → header_get k (header_set k v h) ≡ v
unfolding header_get header_set
header_get-header_set k v h = rw (lookup-insert k k, str_eq_refl k) refl

pub header_set_twice :
    (k v : Bytes) (h : Header) → header_set k v (header_set k v h) ≡ header_set k v h
unfolding header_set
header_set_twice k v h = insert_twice k (v ∷ []) h
