-- ===== src/Swaggergen/Generating/Reading.antt =====
-- How cmd/swaggergen/swaggergen.go reads what pkg/logger stored, and what it leaves of an old file.
use proxify.Common.{
  ◌≡◌, ◌↔◌, ◌≤◌, ◌+◌, refl, sym, ap, ◌∙◌, ℕ, zero, suc, true, false, ◌⊎◌, inl, inr, Bool-cases,
  none, some, [], ◌∷◌, ◌++◌, append_assoc, append-nil, arith, is_empty, length, length-append,
}
use proxify.Go.Outcome.{Outcome, ok}
use proxify.Go.Strings.{Bytes, codes, has_prefix}
use proxify.Go.Strings.Equality.{str_eq_refl}
use proxify.Go.Strings.Prefixes.{has_prefix-before, has_prefix-extend}
use proxify.Go.Maps.{insert, lookup-insert}
use proxify.Go.Http.{Request, Response, HttpLib}
use proxify.Go.Disk.{Disk, contents}
use proxify.Types.{HttpTransaction, ResponseChain}
use proxify.Logger.Env.{OptionsLogger, LogLib}
use proxify.Logger.Storing.{limit_size, is_match}
use proxify.Logger.Storing.Formatting.{stored_text, exchange_text}
use proxify.Logger.Worker.{write_stores}
use proxify.Logger.Clients.Files.{
  plain_name, file_logger, log_path, IsWritable, write_stores-together,
}
use proxify.Swaggergen.Specs.{Spec}
use proxify.Swaggergen.Generating.{
  YamlLib, begins_response, find_response, trim_newline, drop, read_message, write_spec,
}

-- No response begins in a text that a line end follows, unless it begins in the text.
begins_response-before :
    (c : ℕ) (s rest : Bytes)
    → begins_response (c ∷ s) ≡ false
    → begins_response ((c ∷ s) ++ (b'\n' ∷ rest)) ≡ false
unfolding begins_response has_prefix codes
begins_response-before c s rest h = ground (
  arith,
  h,
  has_prefix-before (codes "HTTP/1.0 ") s rest (omega arith),
  has_prefix-before (codes "HTTP/1.1 ") s rest (omega arith),
)

find_response-missing :
    (c : ℕ) (s : Bytes) → begins_response (c ∷ s) ≡ false → find_response (c ∷ s) ≡ find_response s
unfolding find_response
find_response-missing c s h = rw (h, find_response) refl

find_response-found :
    (c : ℕ) (s : Bytes) → begins_response (c ∷ s) ≡ true → find_response (c ∷ s) ≡ c ∷ s
unfolding find_response
find_response-found c s h = rw (h, find_response) refl

find_response-behind :
    (s rest : Bytes)
    → find_response s ≡ []
    → find_response (s ++ (b'\n' ∷ rest)) ≡ find_response (b'\n' ∷ rest)
find_response-behind [] rest h = refl
find_response-behind (c ∷ s) rest h = elim (Bool-cases (begins_response (c ∷ s))) [
  | inl found ↦ absurd (ground (arith, sym (find_response-found c s found) ∙ h))
  | inr missing ↦
      find_response-missing c _ (begins_response-before c s rest missing)
      ∙ find_response-behind s rest (sym (find_response-missing c s missing) ∙ h)
]

-- A text begins like a response.
abbrev pub IsResponse : Bytes → Type 0
IsResponse s = (has_prefix s (codes "HTTP/1.0 ") ≡ true) ⊎ (has_prefix s (codes "HTTP/1.1 ") ≡ true)

begins_response-line :
    (s rest : Bytes) → IsResponse s → begins_response (b'\n' ∷ (s ++ rest)) ≡ true
unfolding begins_response has_prefix codes
begins_response-line s rest (inl h) = ground (arith, has_prefix-extend (codes "HTTP/1.0 ") s rest h)
begins_response-line s rest (inr h) = ground (arith, has_prefix-extend (codes "HTTP/1.1 ") s rest h)

begins_response-blank : (s : Bytes) → begins_response (b'\n' ∷ b'\n' ∷ s) ≡ false
unfolding begins_response has_prefix codes
begins_response-blank s = refl

-- What the file client stores of an exchange is split at the response again.
find_response-stored :
    (dump response : Bytes)
    → find_response dump ≡ []
    → IsResponse response
    → trim_newline (find_response (stored_text false dump ++ stored_text true response))
      ≡ response ++ codes "\n"
unfolding codes trim_newline has_prefix
find_response-stored dump response h r =
    let text : stored_text false dump ++ stored_text true response
        ≡ dump ++ (b'\n' ∷ (b'\n' ∷ (response ++ (b'\n' ∷ [])))) =
      append_assoc dump (b'\n' ∷ []) (b'\n' ∷ (response ++ (b'\n' ∷ []))) in
    rw (text, find_response-behind dump _ h)
      (rw (find_response-missing b'\n' _ (begins_response-blank (response ++ (b'\n' ∷ []))))
        (rw (find_response-found b'\n' _ (begins_response-line response (b'\n' ∷ []) r)) refl))

read_message-both :
    (http : HttpLib) (text : Bytes) (q : Request) (r : Response)
    → http.read_request text ≡ ok q
    → http.read_response (trim_newline (find_response text)) ≡ ok r
    → read_message http text ≡ ok (record { request = some q; response = some r })
unfolding read_message
read_message-both http text q r hq hr = rw (hq, read_message) (rw hr refl)

module _ (join_path : Bytes → Bytes → Bytes) (lib : LogLib) (o : OptionsLogger) (http : HttpLib)
    (uncut : (s : Bytes) → limit_size lib o.max_size s ≡ s)
    (no_request_flag : o.dump_request ≡ false) (no_response_flag : o.dump_response ≡ false)
    (folder : is_empty o.output_folder ≡ false) where
  -- What the file client stores of an exchange is what swaggergen reads: for a transaction that
  -- is no match and has an empty `Data` field, with an output folder, no dump flags, texts that
  -- the maximal size does not cut, and a new file that can be written, when no response begins
  -- in the request's dump, the response begins with HTTP/1.0 or HTTP/1.1 and a space, and the
  -- readers of net/http read a request from the whole text and a response from the response
  -- with a line end behind it, the transaction is stored, and the file is read as that request
  -- and that response.
  pub write_stores-read_message :
      (t : HttpTransaction) (dump : Bytes) (c : ResponseChain) (q : Request) (r : Response)
      (d : Disk)
      → t.data_bytes ≡ []
      → is_match t.userdata.match ≡ false
      → IsWritable join_path lib o (log_path join_path lib o (plain_name t.userdata)) d
      → contents (log_path join_path lib o (plain_name t.userdata)) d ≡ []
      → find_response dump ≡ []
      → IsResponse c.full_response
      → http.read_request (exchange_text dump c.full_response) ≡ ok q
      → http.read_response (c.full_response ++ codes "\n") ≡ ok r
      → (d' : Disk) × (write_stores lib (file_logger join_path lib o) t dump (some c) d ≡ ok d')
        × (read_message http (contents (log_path join_path lib o (plain_name t.userdata)) d')
            ≡ ok (record { request = some q; response = some r }))
  write_stores-read_message t dump c q r d blank unmatched usable fresh plain answers hq hr =
      let (d', stored, held) =
        write_stores-together join_path lib o t dump c d no_request_flag no_response_flag folder
          blank unmatched usable in
      let text : contents (log_path join_path lib o (plain_name t.userdata)) d'
          ≡ exchange_text dump c.full_response =
        held
        ∙ rw (fresh, uncut (stored_text false dump), uncut (stored_text true c.full_response))
            refl in
      (
        d',
        stored,
        rw text (
            read_message-both http _ q r hq (
              ap http.read_response (find_response-stored dump c.full_response plain answers)
              ∙ hr)),
      )

length-drop : (n : ℕ) (s : Bytes) → length s ≤ n + length (drop n s)
unfolding drop
length-drop zero s = omega arith
length-drop (suc n) [] = omega arith
length-drop (suc n) (c ∷ s) = omega (arith, length-drop n s)

drop-short : (n : ℕ) (s : Bytes) → length s ≤ n → drop n s ≡ []
unfolding drop
drop-short zero [] h = refl
drop-short zero (c ∷ s) h = absurd (omega arith)
drop-short (suc n) [] h = refl
drop-short (suc n) (c ∷ s) h = drop-short n s (omega arith)

pub write_spec-eq :
    (lib : YamlLib) (path text : Bytes) (spec : Spec) (d : Disk)
    → d.refuses path ≡ none
    → d.breaks path ≡ none
    → lib.encode_spec spec ≡ ok text
    → write_spec lib path spec d ≡ (
      ok tt,
      record d { files = insert path (text ++ drop (length text) (contents path d)) d.files },
    )
unfolding write_spec
write_spec-eq lib path text spec d open_ sound encoded =
    rw (open_, write_spec) (rw encoded (rw sound refl))

contents-insert :
    (path text : Bytes) (d : Disk)
    → contents path (record d { files = insert path text d.files }) ≡ text
unfolding contents
contents-insert path text d = rw (lookup-insert, str_eq_refl) refl

-- When the specification is encoded and its file can be written, writing it succeeds, and the
-- file holds the new text alone exactly when what it held was not longer.
pub write_spec_iff :
    (lib : YamlLib) (path text : Bytes) (spec : Spec) (d : Disk)
    → d.refuses path ≡ none
    → d.breaks path ≡ none
    → lib.encode_spec spec ≡ ok text
    → ((contents path (write_spec lib path spec d).1 ≡ text)
        ↔ (length (contents path d) ≤ length text))
      × ((write_spec lib path spec d).0 ≡ ok tt)
write_spec_iff lib path text spec d open_ sound encoded =
    let old = contents path d in
    let wrote = write_spec-eq lib path text spec d open_ sound encoded in
    let held : contents path (write_spec lib path spec d).1 ≡ text ++ drop (length text) old =
      rw wrote (contents-insert path _ d) in
    (
      (
        (λ same. omega (
          arith,
          ap (λ (s : Bytes). length s) (sym held ∙ same),
          length-append text (drop (length text) old),
          length-drop (length text) old,
        )),
        (λ short. held ∙ rw (drop-short (length text) old short) (append-nil text)),
      ),
      ap (λ (r : Outcome (Unit {0}) × Disk). r.0) wrote,
    )
