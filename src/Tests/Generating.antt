-- ===== src/Tests/Generating.antt =====
-- Tests of cmd/swaggergen with what pkg/logger stores.
use proxify.Common.{◌≡◌, ◌↔◌, ◌≤◌, refl, none, some, [], ◌∷◌, ◌++◌, length, inr}
use proxify.Go.Outcome.{Outcome, ok, err}
use proxify.Go.Strings.{Bytes, codes, has_prefix, str_eq}
use proxify.Go.Maps.{lookup, insert}
use proxify.Go.Disk.{Disk, contents, file_exists}
use proxify.Go.Http.{Request}
use proxify.Types.{ResponseChain, default_level}
use proxify.Logger.Env.{OptionsLogger}
use proxify.Logger.Storing.{limit_size, is_match}
use proxify.Logger.Worker.{write_stores}
use proxify.Logger.Clients.Files.{file_logger, log_path, plain_name}
use proxify.Swaggergen.Specs.{new_spec, create_spec, add_paths}
use proxify.Swaggergen.Schemas.{Json, object, no_fields}
use proxify.Swaggergen.Generating.{
  YamlLib, begins_response, find_response, read_message, write_spec, Options, folder, file,
  generate, read_log, read_files, create_from_file, trim_newline, drop,
}
use proxify.Logger.Storing.Formatting.{exchange_text}
use proxify.Swaggergen.Methods.{RequestResponse}
use proxify.Swaggergen.Generating.Main.{MainLib}
use proxify.Swaggergen.Generating.Reading.{write_stores-read_message, write_spec_iff}
use proxify.Tests.Fixtures.{question, answer, http, chain, log_lib, log_options, user, empty_disk}
use proxify.Tests.Logging.{transaction}

join_path : Bytes → Bytes → Bytes
join_path parent name = parent ++ name

abbrev limits : OptionsLogger
limits = log_options default_level

abbrev found : ResponseChain
found = record chain { full_response = codes "HTTP/1.1 200 OK" }

uncut : (s : Bytes) → limit_size log_lib limits.max_size s ≡ s
unfolding limit_size
uncut s = refl

abbrev log_file : Bytes
log_file = log_path join_path log_lib limits (plain_name (user none))

abbrev asked : Request
asked = record question { method = exchange_text (codes "GET /p") found.full_response }

write_stores-read_message_example :
    (d' : Disk) × (write_stores log_lib
        (file_logger join_path log_lib limits)
        (transaction none)
        (codes "GET /p")
        (some found)
        empty_disk
      ≡ ok d')
    × (read_message http (contents log_file d')
        ≡ ok (record { request = some asked; response = some answer }))
unfolding codes is_match contents lookup begins_response find_response has_prefix
write_stores-read_message_example =
    write_stores-read_message join_path log_lib limits http uncut refl refl refl (transaction none)
      (codes "GET /p") found asked answer empty_disk refl refl (refl, refl) refl refl (inr refl)
      refl refl

abbrev yaml : YamlLib
yaml = record { encode_spec = λ s. ok (codes "new"); decode_spec = λ s. ok (new_spec [] []) }

abbrev old_disk : Disk
old_disk = record empty_disk { files = (codes "s", codes "older") ∷ [] }

write_spec_iff_example :
    ((contents (codes "s") (write_spec yaml (codes "s") (new_spec [] []) old_disk).1 ≡ codes "new")
      ↔ (length (contents (codes "s") old_disk) ≤ length (codes "new")))
    × ((write_spec yaml (codes "s") (new_spec [] []) old_disk).0 ≡ ok tt)
write_spec_iff_example =
    write_spec_iff yaml (codes "s") (codes "new") (new_spec [] []) old_disk refl refl refl

abbrev unmarshal : Bytes → Outcome Json
unmarshal s = ok (object no_fields)

abbrev generator : Options
generator = record { log_dir = codes "logs"; output_spec = codes "s"; api = codes "d.e" }

-- Folders are passed over, and requests to other hosts leave the specification as it is.
generated :
    generate unmarshal http yaml generator
      (some (folder ∷ file (ok (codes "GET /")) ∷ []))
      empty_disk
    ≡ (ok tt, record empty_disk { files = (codes "s", codes "new") ∷ [] })
unfolding generate read_log read_files read_message create_from_file create_spec add_paths
    write_spec begins_response find_response trim_newline drop contents file_exists insert lookup
    str_eq codes has_prefix
generated = refl

-- Without the folder nothing is written.
no_folder : (generate unmarshal http yaml generator none empty_disk).1 ≡ empty_disk
unfolding generate read_log
no_folder = refl

-- A file that cannot be read ends the generation.
unread :
    generate unmarshal http yaml generator (some (file (err (codes "no")) ∷ [])) empty_disk
    ≡ (err (codes "no"), empty_disk)
unfolding generate read_log read_files
unread = refl

abbrev flags : Options
flags = record { log_dir = codes "logs"; output_spec = codes "s"; api = codes "a-b.c" }

abbrev flags_lib : MainLib
flags_lib = record {
  parse = λ o. ok flags;
  parse_url = λ s. ok question.url;
  logs = λ s. some (folder ∷ file (ok (codes "GET /")) ∷ []);
}

abbrev read : RequestResponse
read = record {
  request = some (record question { method = codes "GET /" });
  response = some answer;
}
