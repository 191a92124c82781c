-- ===== src/Go/Disk.antt =====
-- Files as the os package shows them: contents by path, and the paths at which opening or writing
-- fails.
use proxify.Common.{
  ◌≡◌, refl, Option, none, some, ◌++◌, [], if◌then◌else◌, arith, Bool, true, false,
}
use proxify.Go.Outcome.{Outcome, Error, ok, err}
use proxify.Go.Strings.{Bytes, codes, str_eq}
use proxify.Go.Strings.Equality.{str_eq_refl}
use proxify.Go.Maps.{Map, lookup, insert, lookup-insert}

pub record Disk : Type 0 where
  pub files : Map Bytes
  pub refuses : Bytes → Option Error
  pub breaks : Bytes → Option Error

or_empty : Option Bytes → Bytes
or_empty none = []
or_empty (some s) = s

-- What a file holds; nothing if there is none.
unfoldable pub contents : Bytes → Disk → Bytes
unfolding or_empty
contents path d = or_empty (lookup path d.files)

-- A write at the end of a file, which is made if it is not there.
unfoldable pub append_file : Bytes → Bytes → Disk → Disk
append_file path s d = record d { files = insert path (contents path d ++ s) d.files }

-- `os.Create`: the file is there, and empty.
unfoldable pub create : Bytes → Disk → Outcome (Unit {0}) × Disk
create path d = elim (d.refuses path) [
  | some e ↦ (err e, d)
  | none ↦ (ok tt, record d { files = insert path [] d.files })
]

pub contents-append_file :
    (path other s : Bytes) (d : Disk)
    → contents other (append_file path s d)
      ≡ (if str_eq path other then contents path d ++ s else contents other d)
unfolding contents append_file
contents-append_file path other s d = rw lookup-insert (ground arith)

-- `Close` of a file that is written by one handle: later writes fail, and change nothing.
unfoldable pub close_file : Bytes → Disk → Disk
unfolding codes
close_file path d = record d {
  breaks = λ p. if str_eq path p then some (codes "file already closed") else d.breaks p;
}

-- `os.ReadFile`
unfoldable pub read_file : Bytes → Disk → Outcome Bytes
unfolding codes
read_file path d = elim (d.refuses path) [
  | some e ↦ err e
  | none ↦ elim (lookup path d.files) [ none ↦ err (codes "no such file") | some s ↦ ok s ]
]

-- `os.WriteFile`: the file holds the text, or nothing if writing breaks.
unfoldable pub write_file : Bytes → Bytes → Disk → Outcome (Unit {0}) × Disk
write_file path s d = elim (d.refuses path) [
  | some e ↦ (err e, d)
  | none ↦ elim (d.breaks path) [
    | some e ↦ (err e, record d { files = insert path [] d.files })
    | none ↦ (ok tt, record d { files = insert path s d.files })
  ]
]

unfoldable pub file_exists : Bytes → Disk → Bool
file_exists path d = elim (lookup path d.files) [ none ↦ false | some s ↦ true ]

-- A file that was just appended to is read as what it held, and the text.
pub read_file-append_file :
    (path s : Bytes) (d : Disk)
    → d.refuses path ≡ none
    → read_file path (append_file path s d) ≡ ok (contents path d ++ s)
unfolding read_file append_file
read_file-append_file path s d h = rw (h, read_file) (rw (lookup-insert, str_eq_refl) refl)
