-- ===== src/Swaggergen/Generating.antt =====
-- The generator of cmd/swaggergen/swaggergen.go: how it reads the log files, and writes the
-- specification. Where the source wraps an error in another text, the error is its cause here.
pub mod Reading
pub mod Main
pub mod Documenting
use proxify.Common.{
  ◌≡◌, ℕ, zero, suc, Bool, true, false, not, ◌||◌, Option, none, some, List, [], ◌∷◌, ◌++◌, length,
  if◌then◌else◌,
}
use proxify.Go.Outcome.{Outcome, Error, ok, err, panic, ◌>>=◌, attempt}
use proxify.Go.Strings.{Bytes, codes, has_prefix}
use proxify.Go.Maps.{Map, insert}
use proxify.Go.Http.{Request, Response, HttpLib}
use proxify.Go.Disk.{Disk, contents, file_exists, read_file}
use proxify.Swaggergen.Schemas.{Json}
use proxify.Swaggergen.Methods.{RequestResponse}
use proxify.Swaggergen.Specs.{Spec, create_spec}

-- `Options`
pub record Options : Type 0 where
  pub log_dir : Bytes
  pub output_spec : Bytes
  pub api : Bytes

-- The encoder and the decoder of package yaml.
pub record YamlLib : Type 0 where
  pub encode_spec : Spec → Outcome Bytes
  pub decode_spec : Bytes → Outcome Spec

-- What `filepath.Walk` finds: a folder, or a file with what opening and reading it gives.
pub data Found : Type 0 where
  folder : Found
  file : Outcome Bytes → Found

-- Where a match of `\nHTTP\/1\.[0-1] ` begins.
unfoldable pub begins_response : Bytes → Bool
begins_response s = has_prefix s (codes "\nHTTP/1.0 ") || has_prefix s (codes "\nHTTP/1.1 ")

-- `FindString` of the expression for responses: from its first match to the end, or nothing.
unfoldable pub find_response : Bytes → Bytes
find_response [] = []
find_response (c ∷ s) =
    let rest = find_response s in if begins_response (c ∷ s) then c ∷ s else rest

-- `strings.TrimPrefix(s, "\n")`
unfoldable pub trim_newline : Bytes → Bytes
trim_newline [] = []
trim_newline (c ∷ s) = if has_prefix (c ∷ s) (codes "\n") then s else c ∷ s

-- `drop n s` is `s[n:]`, empty where `s` is shorter.
unfoldable pub drop : ℕ → Bytes → Bytes
drop zero s = s
drop (suc n) [] = []
drop (suc n) (c ∷ s) = drop n s

module _ (http : HttpLib) where
  -- What a file holds: its request, its response, or both.
  unfoldable pub read_message : Bytes → Outcome RequestResponse
  read_message text = do
    request ← attempt (http.read_request text)
    response ← attempt (http.read_response (trim_newline (find_response text)))
    elim request [
      | some req ↦ ok (record { request = some req; response = response })
      | none ↦ elim response [
        | some resp ↦ ok (record { request = none; response = some resp })
        | none ↦ err (codes "error reading request")
      ]
    ]

  -- The walk of `ReadLog` over what there is in the folder.
  unfoldable pub read_files : List Found → List RequestResponse → Outcome (List RequestResponse)
  read_files [] list = ok list
  read_files (folder ∷ rest) list = read_files rest list
  read_files (file text ∷ rest) list = do
    s ← text
    message ← read_message s
    read_files rest (list ++ (message ∷ []))

  -- `ReadLog`, for a folder that is there or not.
  unfoldable pub read_log : Option (List Found) → Outcome (List RequestResponse)
  unfolding codes
  read_log none = err (codes "log directory does not exist")
  read_log (some found) = read_files found []

-- `WriteSpec`. The file is opened without `O_TRUNC`: behind what is written stays what was there.
unfoldable pub write_spec : YamlLib → Bytes → Spec → Disk → Outcome (Unit {0}) × Disk
write_spec lib path spec d = elim (d.refuses path) [
  | some e ↦ (err e, d)
  | none ↦
      let opened : Disk = record d { files = insert path (contents path d) d.files } in
      elim (lib.encode_spec spec) [
        | panic ↦ (panic, opened)
        | err e ↦ (err e, opened)
        | ok text ↦ elim (d.breaks path) [
          | some e ↦ (err e, opened)
          | none ↦ (
            ok tt,
            record d { files = insert path (text ++ drop (length text) (contents path d)) d.files },
          )
        ]
      ]
]

-- `CreateSpec` with the specification that is read from its file, if there is one.
unfoldable pub create_from_file :
    (Bytes → Outcome Json)
    → HttpLib
    → YamlLib
    → Options
    → List RequestResponse
    → Disk
    → Outcome Spec
create_from_file unmarshal http lib o list d =
    if file_exists o.output_spec d
    then (read_file o.output_spec d >>= λ text.
        lib.decode_spec text >>= λ old. create_spec unmarshal http o.log_dir o.api list (some old))
    else create_spec unmarshal http o.log_dir o.api list none

-- `Generate`
unfoldable pub generate :
    (Bytes → Outcome Json)
    → HttpLib
    → YamlLib
    → Options
    → Option (List Found)
    → Disk
    → Outcome (Unit {0}) × Disk
generate unmarshal http lib o logs d = elim (read_log http logs) [
  | panic ↦ (panic, d)
  | err e ↦ (err e, d)
  | ok list ↦ elim (create_from_file unmarshal http lib o list d) [
    | panic ↦ (panic, d)
    | err e ↦ (err e, d)
    | ok spec ↦ write_spec lib o.output_spec spec d
  ]
]
