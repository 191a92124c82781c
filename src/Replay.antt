-- ===== src/Replay.antt =====
-- cmd/replay/replay.go: the visitor of the log files, and the handler that answers for the
-- replayed servers.
pub mod Names
pub mod Answers
pub mod Rounds
pub mod Walks
pub mod Stored
pub mod Main
use proxify.Common.{
  ℕ, zero, suc, Bool, true, false, not, Option, none, some, List, [], ◌∷◌, ◌++◌, if◌then◌else◌,
}
use proxify.Go.Outcome.{Outcome, Error, ok, err, panic, ◌>>=◌}
use proxify.Go.Strings.{Bytes, codes, split, join, trim_suffix, has_suffix}
use proxify.Go.Maps.{Map, insert, lookup, delete}
use proxify.Go.Http.{Request, Response, Url, Header, header_get, header_of, Body}

-- `tokens[:len(tokens)-1]` and `tokens[len(tokens)-1]` of a list that is not empty.
unfoldable pub all_but_last : List Bytes → List Bytes
all_but_last [] = []
all_but_last (t ∷ []) = []
all_but_last (t ∷ u ∷ ts) = t ∷ all_but_last (u ∷ ts)

unfoldable pub last_token : List Bytes → Bytes
last_token [] = []
last_token (t ∷ []) = t
last_token (t ∷ u ∷ ts) = last_token (u ∷ ts)

-- `strings.Split(s, ".")[0]`
unfoldable pub first_token : List Bytes → Bytes
first_token [] = []
first_token (t ∷ ts) = t

-- The host and the id that a file's base name gives.
unfoldable pub parse_name : Bytes → Bytes × Bytes
parse_name base =
    let filename = trim_suffix (trim_suffix base (codes ".txt")) (codes ".match") in
    let tokens = split filename b'-' in
    (join (all_but_last tokens) [], first_token (split (last_token tokens) b'.'))

-- What the handler writes: the header with joined values, the status, and the body.
pub record Answer : Type 0 where
  pub header : List (Bytes × Bytes)
  pub status_code : ℕ
  pub body : Option Body

-- The calls of the visitor: the file's contents, the readers of net/http over one buffer, and the
-- client of the proxy. `add_header` is `Header.Add`; `redirect` is the request that the client makes
-- next, where it takes the answer for a redirect.
pub record ReplayLib : Type 0 where
  pub base : Bytes → Bytes
  pub open_file : Bytes → Outcome Bytes
  pub read_request : Bytes → Outcome (Request × Bytes)
  pub read_response : Bytes → Request → Outcome Response
  pub add_header : Bytes → Bytes → Header → Header
  pub parse_url : Bytes → Outcome Url
  pub send : Request → Outcome (Unit {0})
  pub redirect : Request → Answer → Option Request

-- A visit: its result, the responses that wait for their requests, and the request that is sent.
pub record Visit : Type 0 where
  pub result : Outcome (Unit {0})
  pub responses : Map Response
  pub sent : Option Request

module _ (lib : ReplayLib) (responses : Map Response) where
  abbrev stop : Outcome (Unit {0}) → Visit
  stop r = record { result = r; responses = responses; sent = none }

  -- The part behind the two readers.
  send_request : Bytes → Bytes → Request → Response → Visit
  send_request host id req response = elim (lib.parse_url (codes "http://" ++ host)) [
    | panic ↦ stop panic
    | err e ↦ stop (err e)
    | ok u ↦
        let asked : Request = record req { url = u } in
        record {
          result = lib.send asked;
          responses = insert id response responses;
          sent = some asked;
        }
  ]

  -- The part that reads the file's contents.
  read_messages : Bytes → Bytes → Bytes → Visit
  unfolding send_request
  read_messages host id content = elim (lib.read_request content) [
    | panic ↦ stop panic
    | err e ↦ stop (err e)
    | ok (request, rest) ↦
        let marked : Request = record request {
          header = lib.add_header (codes "proxify") id request.header;
        } in
        elim (lib.read_response rest marked) [
          | panic ↦ stop panic
          | err e ↦ stop (err e)
          | ok response ↦ send_request host id marked response
        ]
  ]

  -- The visitor, for a path that may be a folder, with the error of the walk.
  unfoldable pub visit : Bytes → Bool → Option Error → Visit
  unfolding read_messages
  visit path is_dir (some e) = stop (err e)
  visit path is_dir none =
      if is_dir
      then stop (ok tt)
      else if not (has_suffix path (codes ".txt"))
      then stop (ok tt)
      else let (host, id) = parse_name (lib.base path) in
        elim (lib.open_file path) [
          | panic ↦ stop panic
          | err e ↦ stop (err e)
          | ok content ↦ read_messages host id content
        ]

-- The loop over the stored header.
unfoldable pub joined_fields : Header → List (Bytes × Bytes)
joined_fields [] = []
joined_fields ((k, v) ∷ h) = (k, join v (codes "; ")) ∷ joined_fields h

-- The HTTP server's handler: the response for the request's id is answered once. Without one it
-- panics.
unfoldable pub serve : Map Response → Request → Outcome Answer × Map Response
serve responses req =
    let key = header_get (codes "Proxify") req.header in
    let left = delete key responses in
    elim (lookup key responses) [
      | none ↦ (panic, left)
      | some r ↦ (
        ok (record {
          header = joined_fields (header_of r.header);
          status_code = r.status_code;
          body = r.body;
        }),
        left,
      )
    ]

-- What `filepath.Walk` finds: a path, whether it is a folder, and the error at it.
pub record Found : Type 0 where
  pub path : Bytes
  pub is_dir : Bool
  pub failure : Option Error

-- What comes of a visit while the server runs: the requests that the client makes, the handler's
-- answers, and the responses that are left.
pub record Served : Type 0 where
  pub requests : List Request
  pub answers : List Answer
  pub responses : Map Response

module _ (lib : ReplayLib) (reaches : Request → Bool) where
  -- A request, and those that follow it as redirects, up to a number of requests. Where a request
  -- reaches the handler, by the proxy that the client was told to use, it is answered. A panic of
  -- the handler is recovered by the server, without an answer.
  unfoldable pub follow : ℕ → Map Response → Request → Served
  follow zero responses req = record { requests = []; answers = []; responses = responses }
  follow (suc n) responses req =
      let (answer, left) = serve responses req in
      if reaches req
      then elim answer [
        | panic ↦ record { requests = req ∷ []; answers = []; responses = left }
        | err e ↦ record { requests = req ∷ []; answers = []; responses = left }
        | ok a ↦ elim (lib.redirect req a) [
          | none ↦ record { requests = req ∷ []; answers = a ∷ []; responses = left }
          | some next ↦
              let rest = follow n left next in
              record rest { requests = req ∷ rest.requests; answers = a ∷ rest.answers }
        ]
      ]
      else record { requests = req ∷ []; answers = []; responses = responses }

  -- The client of net/http gives up after ten requests.
  unfoldable pub served : Visit → Served
  served v = elim v.sent [
    | none ↦ record { requests = []; answers = []; responses = v.responses }
    | some req ↦ follow 10 v.responses req
  ]

-- A walk: its result, the requests that were sent, redirects included, and the answers of the
-- handler, in order, and the responses that are left.
pub record Walked : Type 0 where
  pub result : Outcome (Unit {0})
  pub sent : List Request
  pub answers : List Answer
  pub responses : Map Response

-- The walk of `main` over the folder: the first error ends it.
unfoldable pub walk : ReplayLib → (Request → Bool) → List Found → Map Response → Walked
walk lib reaches [] responses = record {
  result = ok tt;
  sent = [];
  answers = [];
  responses = responses;
}
walk lib reaches (f ∷ found) responses =
    let v = visit lib responses f.path f.is_dir f.failure in
    let s = served lib reaches v in
    let rest = walk lib reaches found s.responses in
    elim v.result [
      | panic ↦ record {
        result = panic;
        sent = s.requests;
        answers = s.answers;
        responses = s.responses;
      }
      | err e ↦ record {
        result = err e;
        sent = s.requests;
        answers = s.answers;
        responses = s.responses;
      }
      | ok done ↦ record rest {
        sent = s.requests ++ rest.sent;
        answers = s.answers ++ rest.answers;
      }
    ]
