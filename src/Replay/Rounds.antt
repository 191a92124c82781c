-- ===== src/Replay/Rounds.antt =====
-- A stored exchange goes round in cmd/replay/replay.go: the visitor sends its request, which the
-- handler answers with its response.
use proxify.Common.{◌≡◌, ◌∙◌, refl, true, false, none, some, ◌++◌, arith, if◌then◌else◌}
use proxify.Go.Outcome.{Error, ok, err}
use proxify.Go.Strings.{Bytes, codes, str_eq, has_suffix}
use proxify.Go.Strings.Equality.{str_eq_refl}
use proxify.Go.Maps.{Map, lookup, insert, lookup-insert}
use proxify.Go.Http.{Request, Response, Url, header_get}
use proxify.Replay.{ReplayLib, parse_name, send_request, read_messages, visit, Answer, serve}
use proxify.Replay.Answers.{request_key, serve-once}

-- The request that is sent for one that was read.
abbrev pub marked_request : ReplayLib → Request → Bytes → Url → Request
marked_request lib request id u = record request {
  header = lib.add_header (codes "proxify") id request.header;
  url = u;
}

module _ (lib : ReplayLib) (responses : Map Response) where
  read_messages-sends :
      (host id content rest : Bytes) (request : Request) (response : Response) (u : Url)
      → lib.read_request content ≡ ok (request, rest)
      → (lib.read_response rest
            (record request { header = lib.add_header (codes "proxify") id request.header })
          ≡ ok response)
      → lib.parse_url (codes "http://" ++ host) ≡ ok u
      → read_messages lib responses host id content ≡ record {
        result = lib.send (marked_request lib request id u);
        responses = insert id response responses;
        sent = some (marked_request lib request id u);
      }
  unfolding read_messages send_request
  read_messages-sends host id content rest request response u hq hr hu =
      rw (hq, read_messages) (rw hr (rw (hu, send_request) refl))

  pub visit-sends :
      (path content rest : Bytes) (request : Request) (response : Response) (u : Url)
      → has_suffix path (codes ".txt") ≡ true
      → lib.open_file path ≡ ok content
      → lib.read_request content ≡ ok (request, rest)
      → (lib.read_response rest (record request {
        header = lib.add_header (codes "proxify") (parse_name (lib.base path)).1 request.header;
      })
          ≡ ok response)
      → lib.parse_url (codes "http://" ++ (parse_name (lib.base path)).0) ≡ ok u
      → visit lib responses path false none ≡ record {
        result = lib.send (marked_request lib request (parse_name (lib.base path)).1 u);
        responses = insert (parse_name (lib.base path)).1 response responses;
        sent = some (marked_request lib request (parse_name (lib.base path)).1 u);
      }
  unfolding visit
  visit-sends path content rest request response u txt opened hq hr hu =
      rw (txt, visit)
        (rw opened (
          read_messages-sends (parse_name (lib.base path)).0 (parse_name (lib.base path)).1 content
            rest request response u hq hr hu))

  -- A file without a readable response is not sent.
  pub visit-refuses :
      (path content rest : Bytes) (request : Request) (e : Error)
      → has_suffix path (codes ".txt") ≡ true
      → lib.open_file path ≡ ok content
      → lib.read_request content ≡ ok (request, rest)
      → (lib.read_response rest (record request {
        header = lib.add_header (codes "proxify") (parse_name (lib.base path)).1 request.header;
      })
          ≡ err e)
      → visit lib responses path false none
        ≡ record { result = err e; responses = responses; sent = none }
  unfolding visit read_messages
  visit-refuses path content rest request e txt opened hq hr =
      rw (txt, visit) (rw opened (rw (hq, read_messages) (rw hr refl)))

  -- For a file whose path ends in ".txt" and that is opened and read as a request and a
  -- response, when its host makes a URL and the id that is added to the header is the one that
  -- is found there: the visitor sends that request, with this id and to this URL, and returns
  -- what sending it gives; the handler answers this request with the status and the body of the
  -- response, and afterwards the id has no response, and every other id the one that it had
  -- before the visit.
  pub visit-answers :
      (path content rest : Bytes) (request : Request) (response : Response) (u : Url)
      → has_suffix path (codes ".txt") ≡ true
      → lib.open_file path ≡ ok content
      → lib.read_request content ≡ ok (request, rest)
      → (lib.read_response rest (record request {
        header = lib.add_header (codes "proxify") (parse_name (lib.base path)).1 request.header;
      })
          ≡ ok response)
      → lib.parse_url (codes "http://" ++ (parse_name (lib.base path)).0) ≡ ok u
      → (header_get
            (codes "Proxify")
            (lib.add_header (codes "proxify") (parse_name (lib.base path)).1 request.header)
          ≡ (parse_name (lib.base path)).1)
      → let v = visit lib responses path false none in
        (sent : Request) × (a : Answer) × (v.sent ≡ some sent)
        × (v.result ≡ lib.send sent)
        × (sent ≡ marked_request lib request (parse_name (lib.base path)).1 u)
        × ((serve v.responses sent).0 ≡ ok a)
        × (a.status_code ≡ response.status_code)
        × (a.body ≡ response.body)
        × ((k : Bytes)
            → lookup k (serve v.responses sent).1
              ≡ (if str_eq (parse_name (lib.base path)).1 k then none else lookup k responses))
  visit-answers path content rest request response u txt opened hq hr hu marked =
      let id = (parse_name (lib.base path)).1 in
      let sent = marked_request lib request id u in
      let held : lookup (request_key sent) (insert id response responses) ≡ some response =
        rw (marked, lookup-insert, str_eq_refl) refl in
      let (a, answered, status, body, left, once) =
        serve-once (insert id response responses) sent response held in
      rw (visit-sends path content rest request response u txt opened hq hr hu) (
        sent,
        a,
        refl,
        refl,
        refl,
        answered,
        status,
        body,
        λ k. left k ∙ ground (arith, marked, lookup-insert id k response responses),
      )
