-- ===== src/Replay/Answers.antt =====
-- The handler of cmd/replay/replay.go answers a request once.
use proxify.Common.{◌≡◌, refl, none, some, if◌then◌else◌}
use proxify.Go.Outcome.{ok, panic}
use proxify.Go.Strings.{Bytes, codes, str_eq}
use proxify.Go.Strings.Equality.{str_eq_refl}
use proxify.Go.Maps.{Map, lookup, delete, lookup-delete}
use proxify.Go.Http.{Request, Response, header_get, header_of}
use proxify.Replay.{Answer, serve, joined_fields}

abbrev pub request_key : Request → Bytes
request_key req = header_get (codes "Proxify") req.header

pub serve-eq :
    (responses : Map Response) (req : Request) (r : Response)
    → lookup (request_key req) responses ≡ some r
    → serve responses req ≡ (
      ok (record {
        header = joined_fields (header_of r.header);
        status_code = r.status_code;
        body = r.body;
      }),
      delete (request_key req) responses,
    )
unfolding serve
serve-eq responses req r h = rw (h, serve) refl

serve-panic :
    (responses : Map Response) (req : Request)
    → lookup (request_key req) responses ≡ none
    → (serve responses req).0 ≡ panic
unfolding serve
serve-panic responses req h = rw (h, serve) refl

-- For a request whose id has a stored response: the handler answers with its status and body,
-- and afterwards that id, and no other, has no response; the same request once more makes the
-- handler panic.
pub serve-once :
    (responses : Map Response) (req : Request) (r : Response)
    → lookup (request_key req) responses ≡ some r
    → (a : Answer) × ((serve responses req).0 ≡ ok a)
      × (a.status_code ≡ r.status_code)
      × (a.body ≡ r.body)
      × ((k : Bytes)
          → lookup k (serve responses req).1
            ≡ (if str_eq (request_key req) k then none else lookup k responses))
      × ((serve (serve responses req).1 req).0 ≡ panic)
serve-once responses req r h = rw (serve-eq responses req r h) (
  _,
  refl,
  refl,
  refl,
  λ k. lookup-delete (request_key req) k responses,
  serve-panic (delete (request_key req) responses) req (rw (lookup-delete, str_eq_refl) refl),
)
