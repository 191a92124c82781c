-- ===== src/Replay/Walks.antt =====
-- A whole folder goes round in cmd/replay/replay.go: what `main` sends for the stored exchanges, and
-- what its handler answers.
use proxify.Common.{
  ◌≡◌, refl, ap, ◌∙◌, ℕ, suc, Bool, true, false, ◌⊎◌, inl, inr, none, some, List, [], ◌∷◌, ◌++◌,
  map, arith, All,
}
use proxify.Go.Outcome.{Outcome, ok}
use proxify.Go.Strings.{Bytes, codes, has_suffix}
use proxify.Go.Strings.Equality.{str_eq_refl}
use proxify.Go.Maps.{Map, lookup, insert, delete, lookup-insert, lookup-delete}
use proxify.Go.Http.{Request, Response, Url, header_of}
use proxify.Replay.{
  ReplayLib, Found, Visit, Served, Walked, Answer, parse_name, visit, follow, served, walk, serve,
  joined_fields,
}
use proxify.Replay.Answers.{request_key, serve-eq}
use proxify.Replay.Rounds.{marked_request, visit-sends}
use proxify.Replay.Main.{
  ReplayOptions, MainLib, Replaying, replay_defaults, replay_dialer, replay_dns, start_replay, main,
}

-- A file with a request and its response, and the URL that its name makes.
pub record Exchange : Type 0 where
  pub path : Bytes
  pub content : Bytes
  pub rest : Bytes
  pub request : Request
  pub response : Response
  pub url : Url

-- What the walk finds: an exchange, or something that it passes over.
pub data Item : Type 0 where
  stored : Exchange → Item
  ignored : Found → Item

abbrev pub found_of : Item → Found
found_of (stored x) = record { path = x.path; is_dir = false; failure = none }
found_of (ignored f) = f

abbrev pub exchange_answer : Exchange → Answer
exchange_answer x = record {
  header = joined_fields (header_of x.response.header);
  status_code = x.response.status_code;
  body = x.response.body;
}

abbrev pub answers_of : List Item → List Answer
answers_of [] = []
answers_of (stored x ∷ items) = exchange_answer x ∷ answers_of items
answers_of (ignored f ∷ items) = answers_of items

abbrev IsEmpty : Map Response → Type 0
IsEmpty m = (k : Bytes) → lookup k m ≡ none

module _ (lib : ReplayLib) where
  abbrev pub exchange_id : Exchange → Bytes
  exchange_id x = (parse_name (lib.base x.path)).1

  abbrev pub exchange_request : Exchange → Request
  exchange_request x = marked_request lib x.request (exchange_id x) x.url

  abbrev pub requests_of : List Item → List Request
  requests_of [] = []
  requests_of (stored x ∷ items) = exchange_request x ∷ requests_of items
  requests_of (ignored f ∷ items) = requests_of items

module _ (lib : ReplayLib) (reaches : Request → Bool) where
  -- The file is opened and read, its host makes a URL, the id can be read back from the header, the
  -- request is sent and reaches the handler, and the client does not take the answer for a redirect.
  pub record IsReplayed (x : Exchange) : Type 0 where
    pub text : has_suffix x.path (codes ".txt") ≡ true
    pub opened : lib.open_file x.path ≡ ok x.content
    pub asked : lib.read_request x.content ≡ ok (x.request, x.rest)
    pub answered :
        lib.read_response x.rest (record x.request {
          header = lib.add_header (codes "proxify") (exchange_id lib x) x.request.header;
        })
        ≡ ok x.response
    pub named : lib.parse_url (codes "http://" ++ (parse_name (lib.base x.path)).0) ≡ ok x.url
    pub marked : request_key (exchange_request lib x) ≡ exchange_id lib x
    pub sent : lib.send (exchange_request lib x) ≡ ok tt
    pub arrived : reaches (exchange_request lib x) ≡ true
    pub final : lib.redirect (exchange_request lib x) (exchange_answer x) ≡ none

  -- A folder, or a file of another kind, that is found without an error.
  abbrev pub IsPassed : Item → Type 0
  IsPassed (stored x) = IsReplayed x
  IsPassed (ignored f) =
      ((f.is_dir ≡ true) ⊎ (has_suffix f.path (codes ".txt") ≡ false)) × (f.failure ≡ none)

  abbrev passed : Map Response → Visit
  passed responses = record { result = ok tt; responses = responses; sent = none }

  abbrev nothing_served : Map Response → Served
  nothing_served responses = record { requests = []; answers = []; responses = responses }

  visit-ignored :
      (f : Found) (responses : Map Response)
      → IsPassed (ignored f)
      → visit lib responses f.path f.is_dir f.failure ≡ passed responses
  unfolding visit
  visit-ignored f responses (inl dir, sound) = rw (sound, visit) (rw dir refl)
  visit-ignored f responses (inr other, sound) = rw (sound, visit) (ground arith)

  abbrev exchange_visit : Exchange → Map Response → Visit
  exchange_visit x responses = record {
    result = lib.send (exchange_request lib x);
    responses = insert (exchange_id lib x) x.response responses;
    sent = some (exchange_request lib x);
  }

  abbrev exchange_served : Exchange → Map Response → Served
  exchange_served x responses = record {
    requests = exchange_request lib x ∷ [];
    answers = exchange_answer x ∷ [];
    responses = delete (exchange_id lib x) (insert (exchange_id lib x) x.response responses);
  }

  visit-exchange :
      (x : Exchange) (responses : Map Response)
      → IsReplayed x
      → visit lib responses x.path false none ≡ exchange_visit x responses
  visit-exchange x responses r =
      visit-sends lib responses x.path x.content x.rest x.request x.response x.url r.text r.opened
        r.asked r.answered r.named

  follow-answered :
      (n : ℕ) (responses left : Map Response) (req : Request) (a : Answer)
      → reaches req ≡ true
      → serve responses req ≡ (ok a, left)
      → lib.redirect req a ≡ none
      → follow lib reaches (suc n) responses req
        ≡ record { requests = req ∷ []; answers = a ∷ []; responses = left }
  unfolding follow
  follow-answered n responses left req a arrived answered final =
      rw (arrived, follow)
        (rw (answered, follow)
          (rw final (rw (ap (λ (p : Outcome Answer × Map Response). p.1) answered) refl)))

  -- The handler answers what the visitor sends, and the id is free again.
  served-exchange :
      (x : Exchange) (responses : Map Response)
      → IsReplayed x
      → served lib reaches (exchange_visit x responses) ≡ exchange_served x responses
  unfolding served
  served-exchange x responses r =
      let given = insert (exchange_id lib x) x.response responses in
      let held : lookup (request_key (exchange_request lib x)) given ≡ some x.response =
        rw (r.marked, lookup-insert, str_eq_refl) refl in
      follow-answered 9 given (delete (exchange_id lib x) given) (exchange_request lib x)
        (exchange_answer x) r.arrived
        (serve-eq given (exchange_request lib x) x.response held ∙ rw r.marked refl) r.final

  IsEmpty-delete :
      (id : Bytes) (r : Response) (m : Map Response)
      → IsEmpty m
      → IsEmpty (delete id (insert id r m))
  IsEmpty-delete id r m h k = rw (lookup-delete, lookup-insert, h k) (ground arith)

  -- A visit that succeeds, and then the rest of the walk.
  walk-step :
      (f : Found) (found : List Found) (responses : Map Response) (v : Visit) (s : Served)
      → visit lib responses f.path f.is_dir f.failure ≡ v
      → served lib reaches v ≡ s
      → v.result ≡ ok tt
      → let rest = walk lib reaches found s.responses in
        walk lib reaches (f ∷ found) responses
        ≡ record rest { sent = s.requests ++ rest.sent; answers = s.answers ++ rest.answers }
  unfolding walk
  walk-step f found responses v s hv hs hr = rw (hv, walk) (simp hr (rw (hv, hs) refl))

  pub walk-answers :
      (items : List Item) (responses : Map Response)
      → IsEmpty responses
      → All IsPassed items
      → let w = walk lib reaches (map found_of items) responses in
        (w.result ≡ ok tt)
        × (w.sent ≡ requests_of lib items)
        × (w.answers ≡ answers_of items)
        × IsEmpty w.responses
  walk-answers [] responses h _ = unfold walk in (refl, refl, refl, h)
  walk-answers (stored x ∷ items) responses h (r, rs) =
      let left = delete (exchange_id lib x) (insert (exchange_id lib x) x.response responses) in
      let (fine, sent, answers, empty) =
        walk-answers items left (IsEmpty-delete (exchange_id lib x) x.response responses h) rs in
      rw
        (walk-step _ (map found_of items) responses _ (exchange_served x responses)
          (visit-exchange x responses r) (served-exchange x responses r) r.sent)
        (
          fine,
          ap (λ l. exchange_request lib x ∷ l) sent,
          ap (λ l. exchange_answer x ∷ l) answers,
          empty,
        )
  walk-answers (ignored f ∷ items) responses h (p, rs) =
      rw
        (walk-step f (map found_of items) responses (passed responses) (nothing_served responses)
          (visit-ignored f responses p) (unfold served in refl) refl)
        (walk-answers items responses h rs)

  module _ {Dialer : Type 0} (main_lib : MainLib Dialer) where
    -- When the flags are parsed, the dialer is made, the address of the client's proxy is a
    -- URL, and the walk finds, without an error, files that are no ".txt" files or folders,
    -- which are passed over, and stored exchanges, each of which is opened and read as a
    -- request and a response, makes a URL, is sent without an error, reaches the handler with
    -- its id in the header, and has an answer that the client does not take for a redirect:
    -- main ends its walk without an error; the requests that it sent are those of the
    -- exchanges, each with its id and URL, in order; the handler answered each with the header,
    -- status and body of its own response; and no response is left.
    pub main-replays :
        (o : ReplayOptions) (dialer : Dialer) (burp : Url) (items : List Item)
        → main_lib.parse replay_defaults ≡ ok o
        → main_lib.new_dialer (replay_dialer o) ≡ ok dialer
        → lib.parse_url o.http_burp_address ≡ ok burp
        → main_lib.find o.output_folder ≡ map found_of items
        → All IsPassed items
        → (r : Replaying Dialer) × (w : Walked) × (main main_lib lib reaches ≡ ok (r, w))
          × (r.client.proxy ≡ burp)
          × (w.result ≡ ok tt)
          × (w.sent ≡ requests_of lib items)
          × (w.answers ≡ answers_of items)
          × ((k : Bytes) → lookup k w.responses ≡ none)
    unfolding main start_replay lookup
    main-replays o dialer burp items parsed dialed named found passed_all =
        let (fine, sent, answers, empty) = walk-answers items [] (λ k. refl) passed_all in
        (
          record {
            proxy_address = o.http_proxy_listener_address;
            dialer = dialer;
            dns = replay_dns o;
            http_address = o.http_listener_address;
            client = record { proxy = burp; insecure_skip_verify = true };
          },
          walk lib reaches (map found_of items) [],
          rw (parsed, main) (rw (dialed, start_replay) (rw (named, start_replay) (rw found refl))),
          refl,
          fine,
          sent,
          answers,
          empty,
        )
