-- ===== src/Replay/Stored.antt =====
-- From pkg/logger to cmd/replay/replay.go: the file in which the logger stores an exchange, as replay
-- reads it.
use proxify.Common.{
  ◌≡◌, refl, ap, ◌∙◌, Bool, true, false, none, some, List, [], ◌∷◌, ◌++◌, is_empty, append_assoc,
  arith, Bool-cases, inl, inr,
}
use proxify.Go.Strings.Prefixes.{has_prefix-before}
use proxify.Go.Outcome.{Outcome, Error, ok, err}
use proxify.Go.Strings.{Bytes, codes, has_suffix, has_prefix}
use proxify.Go.Maps.{Map}
use proxify.Go.Http.{Request, Response}
use proxify.Go.Disk.{
  Disk, contents, read_file, append_file, read_file-append_file, contents-append_file,
}
use proxify.Go.Strings.Equality.{str_eq_refl}
use proxify.Types.{HttpTransaction, ResponseChain}
use proxify.Logger.Env.{OptionsLogger, LogLib}
use proxify.Logger.Storing.{limit_size, is_match}
use proxify.Logger.Storing.Formatting.{stored_text, exchange_text}
use proxify.Logger.Worker.{write_stores}
use proxify.Logger.Clients.Files.{
  plain_name, response_name, file_logger, log_path, IsWritable, write_stores-append,
}
use proxify.Replay.{ReplayLib, Found, Visit, Served, visit, walk, served}
use proxify.Replay.Rounds.{visit-refuses}

module _ (replay : ReplayLib) where
  -- Files are read from this disk.
  abbrev pub reading : Disk → ReplayLib
  reading d = record replay { open_file = λ p. read_file p d }

  -- `http.ReadRequest` takes a head off any text that begins with it, and leaves the rest; the body
  -- of the request that it gives is read later.
  abbrev pub TakesHead : Bytes → Type 0
  TakesHead head =
      (rest : Bytes) → (q : Request) × (replay.read_request (head ++ rest) ≡ ok (q, rest))

  -- `http.ReadResponse` fails on a text that does not begin with the protocol.
  abbrev pub WantsStatusLine : Type 0
  WantsStatusLine =
      (s : Bytes) (q : Request)
      → has_prefix s (codes "HTTP/") ≡ false
      → (e : Error) × (replay.read_response s q ≡ err e)

  -- A visit that fails ends the walk.
  walk-stop :
      (reaches : Request → Bool) (f : Found) (found : List Found) (responses : Map Response)
      (v : Visit) (s : Served) (e : Error)
      → visit replay responses f.path f.is_dir f.failure ≡ v
      → served replay reaches v ≡ s
      → v.result ≡ err e
      → walk replay reaches (f ∷ found) responses
        ≡ record { result = err e; sent = s.requests; answers = s.answers; responses = s.responses }
  unfolding walk
  walk-stop reaches f found responses v s e hv hs hr = rw (hv, walk) (simp hr (rw (hv, hs) refl))

  -- A file whose text behind the request is no response ends the walk.
  walk-refused :
      (reaches : Request → Bool) (path content rest : Bytes) (found : List Found) (q : Request)
      (responses : Map Response)
      → WantsStatusLine
      → has_suffix path (codes ".txt") ≡ true
      → replay.open_file path ≡ ok content
      → replay.read_request content ≡ ok (q, rest)
      → has_prefix rest (codes "HTTP/") ≡ false
      → (e : Error) × (walk replay reaches
            (record { path = path; is_dir = false; failure = none } ∷ found)
            responses
          ≡ record { result = err e; sent = []; answers = []; responses = responses })
  unfolding served
  walk-refused reaches path content rest found q responses wants txt opened hq other =
      let (e, failed) = wants rest _ other in
      (
        e,
        walk-stop reaches _ found responses _ _ e
            (visit-refuses replay responses path content rest q e txt opened hq failed) refl refl,
      )

-- What the logger puts between a request and its response is no status line.
gap-other :
    (body response : Bytes)
    → has_prefix body (codes "HTTP/") ≡ false
    → has_prefix (body ++ (b'\n' ∷ response)) (codes "HTTP/") ≡ false
unfolding codes
gap-other body response h =
    elim (Bool-cases (has_prefix (body ++ (b'\n' ∷ response)) (codes "HTTP/"))) [
      | inl begins ↦
          let early = has_prefix-before (codes "HTTP/") body response (omega arith) begins in
          absurd (ground (arith, early))
      | inr other ↦ other
    ]

module _ (join_path : Bytes → Bytes → Bytes) (lib : LogLib) (o : OptionsLogger)
    (uncut : (s : Bytes) → limit_size lib o.max_size s ≡ s)
    (no_request_flag : o.dump_request ≡ false) (no_response_flag : o.dump_response ≡ false)
    (folder : is_empty o.output_folder ≡ false) where
  abbrev file_of : HttpTransaction → Bytes
  file_of t = log_path join_path lib o (plain_name t.userdata)

  -- The file of an exchange, read after it was stored.
  write_stores-read_file :
      (t : HttpTransaction) (dump : Bytes) (c : ResponseChain) (d : Disk)
      → t.data_bytes ≡ []
      → is_match t.userdata.match ≡ false
      → IsWritable join_path lib o (file_of t) d
      → contents (file_of t) d ≡ []
      → (d' : Disk) × (write_stores lib (file_logger join_path lib o) t dump (some c) d ≡ ok d')
        × (read_file (file_of t) d' ≡ ok (exchange_text dump c.full_response))
  unfolding append_file
  write_stores-read_file t dump c d blank unmatched usable fresh =
      let same : response_name t.userdata ≡ plain_name t.userdata = rw unmatched refl in
      (
        _,
        write_stores-append join_path lib o t dump c d no_request_flag no_response_flag folder blank
            usable (rw same usable),
        rw (same, uncut (stored_text false dump), uncut (stored_text true c.full_response))
            (read_file-append_file (file_of t) (stored_text true c.full_response)
                (append_file (file_of t) (stored_text false dump) d) usable.0
              ∙ ap (λ (s : Bytes). Outcome.ok (s ++ stored_text true c.full_response))
                  (rw (contents-append_file, str_eq_refl, fresh) refl)),
      )

  -- What the logger stores of an exchange ends a replay. For a transaction that is no match and
  -- has an empty `Data` field, with the file client as the only store, an output folder, no
  -- dump flags, texts that the maximal size does not cut, and a new ".txt" file that can be
  -- written: when the dump of the request is a head and a body that does not begin with
  -- "HTTP/", `http.ReadRequest` takes the head off a text and leaves the rest, and
  -- `http.ReadResponse` fails on a text that does not begin with "HTTP/", then the transaction
  -- is stored, whatever its response, and a walk that finds its file ends there with an error;
  -- it sends nothing, and does not visit what it would find behind that file.
  pub write_stores-unreplayed :
      (replay : ReplayLib) (t : HttpTransaction) (head body : Bytes) (c : ResponseChain)
      (reaches : Request → Bool) (found : List Found) (responses : Map Response) (d : Disk)
      → t.data_bytes ≡ []
      → is_match t.userdata.match ≡ false
      → IsWritable join_path lib o (file_of t) d
      → contents (file_of t) d ≡ []
      → has_suffix (file_of t) (codes ".txt") ≡ true
      → has_prefix body (codes "HTTP/") ≡ false
      → TakesHead replay head
      → WantsStatusLine replay
      → (d' : Disk) × (e : Error) × (write_stores lib
            (file_logger join_path lib o)
            t
            (head ++ body)
            (some c)
            d
          ≡ ok d')
        × (walk
              (reading replay d')
              reaches
              (record { path = file_of t; is_dir = false; failure = none } ∷ found)
              responses
            ≡ record { result = err e; sent = []; answers = []; responses = responses })
  unfolding codes
  write_stores-unreplayed replay t head body c reaches found responses d blank unmatched usable
        fresh txt plain takes wants =
      let (d', stored, held) =
        write_stores-read_file t (head ++ body) c d blank unmatched usable fresh in
      let rest = body ++ (b'\n' ∷ (b'\n' ∷ (c.full_response ++ codes "\n"))) in
      let split_text : exchange_text (head ++ body) c.full_response ≡ head ++ rest =
        simp append_assoc refl in
      let (q, read) = takes rest in
      let (e, refused) =
        walk-refused (reading replay d') reaches (file_of t) _ rest found q responses wants txt held
          (rw split_text read) (gap-other body _ plain) in
      (d', e, stored, refused)
