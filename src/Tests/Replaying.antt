-- ===== src/Tests/Replaying.antt =====
-- Tests of cmd/replay.
use proxify.Common.{
  ◌==◌, length, if◌then◌else◌, ◌≡◌, refl, some, true, false, none, [], ◌∷◌, ◌++◌, arith, List, map,
  inl,
}
use proxify.Go.Strings.{
  Bytes, str_eq, codes, replace_all, split, join, trim_suffix, has_suffix, has_prefix,
}
use proxify.Types.{HttpTransaction, default_level}
use proxify.Go.Disk.{Disk, contents}
use proxify.Logger.Env.{OptionsLogger}
use proxify.Logger.Worker.{write_stores}
use proxify.Logger.Storing.{limit_size, is_match}
use proxify.Logger.Clients.Files.{plain_name, file_logger, log_path}
use proxify.Logger.Storing.{store_name}
use proxify.Replay.{parse_name, all_but_last, last_token, first_token}
use proxify.Swaggergen.Generating.{drop}
use proxify.Replay.Names.{parse_name-store_name}
use proxify.Go.Outcome.{Error, ok, err}
use proxify.Go.Maps.{Map, lookup, delete, insert}
use proxify.Go.Http.{Request, Response, header_get}
use proxify.Replay.Stored.{write_stores-unreplayed, reading, WantsStatusLine}
use proxify.Replay.Main.{MainLib, Replaying, replay_defaults, main}
use proxify.Replay.Walks.{
  Exchange, Item, stored, ignored, found_of, IsReplayed, requests_of, answers_of, main-replays,
}
use proxify.Replay.{Found, Walked, serve, ReplayLib, visit, walk, served, follow}
use proxify.Tests.Fixtures.{log_options, user, question, answer, page, log_lib, chain, empty_disk}

abbrev transaction : HttpTransaction
transaction = record {
  userdata = user none;
  raw_data = [];
  data_bytes = [];
  data_string = [];
  name = [];
  part_suffix = [];
  format = [];
  request = none;
  response = none;
}

parse_name-store_name_example :
    parse_name (store_name (log_options default_level) [] transaction ++ codes ".txt")
    ≡ (replace_all (transaction.userdata.host ++ []) b'-' [], transaction.userdata.id)
unfolding codes
parse_name-store_name_example =
    parse_name-store_name (log_options default_level) [] transaction (omega arith) (omega arith)

-- The dash of the host is lost.
lost_dash : parse_name (codes "a-b.c-x1.match.txt") ≡ (codes "ab.c", codes "x1")
unfolding parse_name codes split join trim_suffix has_suffix has_prefix all_but_last last_token
    first_token
lost_dash = refl

abbrev replayed : Request
replayed = record question { header = (codes "Proxify", codes "x1" ∷ []) ∷ [] }

abbrev waiting : Map Response
waiting = (codes "x1", answer) ∷ (codes "x2", answer) ∷ []

abbrev replay_lib : ReplayLib
replay_lib = record {
  base = λ path. path;
  open_file = λ path. ok (codes "GET");
  read_request = λ s. ok (question, s);
  read_response = λ s r. ok answer;
  add_header = λ k v h. (codes "Proxify", v ∷ []) ∷ h;
  parse_url = λ s. ok page;
  send = λ r. ok tt;
  redirect = λ r a. if a.status_code == 302 then some (record r { url = page }) else none;
}

-- The responses that are read are no redirects.
abbrev plain : Response
plain = record answer { status_code = 200 }

abbrev plain_lib : ReplayLib
plain_lib = record replay_lib { read_response = λ s r. ok plain }

abbrev stored_file : Bytes
stored_file = codes "a.c-x3.txt"

-- An error at a path ends the walk behind the first request.
stopped :
    (walk replay_lib
      (λ r. true)
      (record { path = stored_file; is_dir = false; failure = none }
        ∷ record { path = stored_file; is_dir = false; failure = some [] }
        ∷ record { path = stored_file; is_dir = false; failure = none }
        ∷ [])
      waiting).result
    ≡ err []
unfolding served follow serve lookup header_get str_eq walk visit has_suffix has_prefix codes
stopped = refl

-- The redirect that is stored is followed with the id that was used, and gets no answer.
redirected :
    let s = served replay_lib (λ r. true) (visit replay_lib waiting stored_file false none) in
    (length s.requests ≡ 2) × (length s.answers ≡ 1)
unfolding served follow serve visit lookup delete insert header_get str_eq has_suffix has_prefix
    codes parse_name first_token split last_token trim_suffix
redirected = (refl, refl)

abbrev exchange : Exchange
exchange = record {
  path = stored_file;
  content = codes "GET";
  rest = codes "GET";
  request = question;
  response = plain;
  url = page;
}

abbrev folder : Found
folder = record { path = codes "db/"; is_dir = true; failure = none }

abbrev items : List Item
items = ignored folder ∷ stored exchange ∷ stored exchange ∷ []

abbrev main_lib : MainLib (Unit {0})
main_lib = record { parse = λ o. ok o; new_dialer = λ o. ok tt; find = λ p. map found_of items }

exchange-IsReplayed : IsReplayed plain_lib (λ r. true) exchange
unfolding header_get str_eq codes has_suffix has_prefix lookup
exchange-IsReplayed = record {
  text = refl;
  opened = refl;
  asked = refl;
  answered = refl;
  named = refl;
  marked = refl;
  sent = refl;
  arrived = refl;
  final = refl;
}

main-replays_example :
    (r : Replaying (Unit {0})) × (w : Walked) × (main main_lib plain_lib (λ q. true) ≡ ok (r, w))
    × (r.client.proxy ≡ page)
    × (w.result ≡ ok tt)
    × (w.sent ≡ requests_of plain_lib items)
    × (w.answers ≡ answers_of items)
    × ((k : Bytes) → lookup k w.responses ≡ none)
main-replays_example =
    main-replays plain_lib (λ r. true) main_lib replay_defaults tt page items refl refl refl refl
      ((inl refl, refl), (exchange-IsReplayed, (exchange-IsReplayed, tt)))

abbrev raw_logs : OptionsLogger
raw_logs = log_options default_level

join_path : Bytes → Bytes → Bytes
join_path folder_path name = folder_path ++ (codes "/" ++ (name ++ codes ".txt"))

abbrev log_file : Bytes
log_file = log_path join_path log_lib raw_logs (plain_name transaction.userdata)

uncut : (s : Bytes) → limit_size log_lib raw_logs.max_size s ≡ s
unfolding limit_size
uncut s = refl

-- The head of a request is "GET", and a response has to begin with the protocol.
abbrev strict_lib : ReplayLib
strict_lib = record replay_lib {
  read_request = λ s. ok (question, drop 3 s);
  read_response = λ s r.
      if has_prefix s (codes "HTTP/") then ok answer else err (codes "malformed HTTP response");
}

strict : WantsStatusLine strict_lib
strict s q h = (codes "malformed HTTP response", rw h refl)

-- An error at the first stored file ends the walk, and the file behind it is not visited.
write_stores-unreplayed_example :
    (d' : Disk) × (e : Error) × (write_stores log_lib
        (file_logger join_path log_lib raw_logs)
        transaction
        (codes "GET" ++ codes "hi")
        (some chain)
        empty_disk
      ≡ ok d')
    × (walk
          (reading strict_lib d')
          (λ r. true)
          (record { path = log_file; is_dir = false; failure = none } ∷ folder ∷ [])
          waiting
        ≡ record { result = err e; sent = []; answers = []; responses = waiting })
unfolding codes is_match contents lookup has_suffix has_prefix drop join_path
write_stores-unreplayed_example =
    write_stores-unreplayed join_path log_lib raw_logs uncut refl refl refl strict_lib transaction
      (codes "GET") (codes "hi") chain (λ r. true) (folder ∷ []) waiting empty_disk refl refl
      (refl, refl) refl refl refl (λ rest. (question, refl)) strict
