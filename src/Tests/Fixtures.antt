-- ===== src/Tests/Fixtures.antt =====
-- The messages and libraries that the tests share.
use proxify.Common.{pos, Bool, true, false, Option, none, some, [], ◌∷◌, ◌++◌, take}
use proxify.Go.Outcome.{ok}
use proxify.Go.Strings.{Bytes, codes}
use proxify.Go.Http.{HttpLib, Request, Response, Url, buffer}
use proxify.Go.Disk.{Disk}
use proxify.Types.{ResponseChain, UserData, Verbosity}
use proxify.Logger.Env.{LogLib, OptionsLogger}

abbrev pub page : Url
page = record { scheme = codes "http"; host = codes "a-b.c"; path = codes "/p"; raw_query = [] }

abbrev pub question : Request
question = record {
  method = codes "GET";
  url = page;
  header =
      (codes "Accept-Encoding", codes "gzip, br" ∷ [])
      ∷ (codes "X-Id", codes "1" ∷ codes "2" ∷ [])
      ∷ [];
  host = codes "a-b.c";
  body = some (buffer (codes "hi"));
  content_length = pos 2;
}

abbrev pub answer : Response
answer = record {
  status_code = 302;
  header = some ((codes "Location", codes "http://d/" ∷ []) ∷ []);
  body = some (buffer (codes "ok"));
  content_length = pos 2;
  close = false;
  request = some question;
}

abbrev pub dump : Request → Bytes
dump r = r.method ++ (codes " " ++ r.url.path)

abbrev pub http : HttpLib
http = record {
  dump_with_body = λ r. ok (dump r);
  dump_without_body = λ r. ok (dump r);
  dump_response_text = λ r. ok (codes "302");
  read_request = λ s. ok (record question { method = s });
  read_response = λ s. ok answer;
  url_string = λ u. u.host;
  url_query = λ u. [];
  encode_query = λ q. [];
  location_host = λ r. ok (codes "d");
}

abbrev pub chain : ResponseChain
chain = record {
  response = answer;
  headers = codes "302 Found";
  body = codes "ok";
  full_response = codes "302 Found ok";
}

abbrev pub log_lib : LogLib
log_lib = record {
  http = http;
  contains_any = λ s l. false;
  truncate = λ s n. take n s;
  is_printable_ascii = λ s. true;
  fill = λ r. ok chain;
  now = codes "noon";
}

abbrev pub log_options : Verbosity → OptionsLogger
log_options v = record {
  verbosity = v;
  output_folder = codes "logs";
  output_file = codes "out.jsonl";
  output_format = codes "jsonl";
  dump_request = false;
  dump_response = false;
  max_size = pos 0;
  elastic = some (record {
    addr = [];
    ssl = false;
    ssl_verification = false;
    username = [];
    password = [];
    index_name = [];
  });
  kafka = some (record { addr = []; topic = [] });
}

abbrev pub user : Option Bool → UserData
user m = record { id = codes "x1"; match = m; has_response = true; host = codes "a-b.c" }

abbrev pub empty_disk : Disk
empty_disk = record { files = []; refuses = λ p. none; breaks = λ p. none }
