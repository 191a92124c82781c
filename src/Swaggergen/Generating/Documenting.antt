-- ===== src/Swaggergen/Generating/Documenting.antt =====
-- What a run of cmd/swaggergen/swaggergen.go leaves in its file.
use proxify.Common.{◌≡◌, true, false, Option, none, some, ◌++◌, length}
use proxify.Go.Outcome.{Outcome, ok}
use proxify.Go.Strings.{Bytes}
use proxify.Go.Maps.{insert}
use proxify.Go.Disk.{Disk, contents, file_exists, read_file}
use proxify.Swaggergen.Specs.{Spec}
use proxify.Swaggergen.Generating.{YamlLib, drop}

-- The specification that the file holds, or there is no file.
abbrev pub IsPrevious : YamlLib → Bytes → Disk → Option Spec → Type 0
IsPrevious lib path d none = file_exists path d ≡ false
IsPrevious lib path d (some s) =
    (file_exists path d ≡ true)
    × (text : Bytes) × (read_file path d ≡ ok text)
    × (lib.decode_spec text ≡ ok s)

-- A specification can be encoded and written to the file.
abbrev pub IsOpen : YamlLib → Bytes → Disk → Type 0
IsOpen lib path d =
    (d.refuses path ≡ none)
    × (d.breaks path ≡ none)
    × ((s : Spec) → (text : Bytes) × (lib.encode_spec s ≡ ok text))

-- The disk with the specification's text in the file, before what is left of a longer one.
abbrev pub with_spec : Bytes → Bytes → Disk → Disk
with_spec path text d = record d {
  files = insert path (text ++ drop (length text) (contents path d)) d.files;
}
