-- ===== src/Logger/Clients/Bounds.antt =====
-- How much a transaction adds to the files of pkg/logger/file/file.go.
use proxify.Common.{
  ◌≡◌, ◌≢◌, refl, ap, ◌++◌, ℕ, ◌+◌, ◌*◌, ◌≤◌, ◌<◌, pos, Bool, true, false, Option, none, some, [],
  ◌∷◌, arith, length, length-append, is_empty, Option-cases, Bool-cases, inl, inr,
}
use proxify.Go.Outcome.{Outcome, ok, panic, Outcome-cases}
use proxify.Go.Strings.{Bytes, str_eq}
use proxify.Go.Strings.Equality.{str_eq_iff}
use proxify.Go.Disk.{Disk, append_file, contents, contents-append_file}
use proxify.Types.{HttpTransaction, ResponseChain}
use proxify.Logger.Env.{OptionsLogger, LogLib}
use proxify.Logger.Storing.{part_suffix, limit_size, format_transaction, save_all, store_writer}
use proxify.Logger.Worker.{write_stores}
use proxify.Logger.Clients.{file_store, file_save, write_to_file}
use proxify.Logger.Clients.Files.{folder_options, file_logger}

-- Every file has grown by at most so many bytes.
abbrev pub IsWithin : ℕ → Disk → Disk → Type 0
IsWithin n d d' = (path : Bytes) → length (contents path d') ≤ length (contents path d) + n

append_file-IsWithin : (path s : Bytes) (d : Disk) → IsWithin (length s) d (append_file path s d)
append_file-IsWithin path s d other = elim (Bool-cases (str_eq path other)) [
  | inl e ↦
      let same : path ≡ other = (str_eq_iff path other).0 e in
      let grown : contents other (append_file path s d) ≡ contents path d ++ s =
        rw (contents-append_file, e) refl in
      omega (
        arith,
        ap (λ (t : Bytes). length t) grown,
        length-append (contents path d) s,
        ap (λ (q : Bytes). length (contents q d)) same,
      )
  | inr e ↦
      let kept : contents other (append_file path s d) ≡ contents other d =
        rw (contents-append_file, e) refl in
      omega (arith, ap (λ (t : Bytes). length t) kept)
]

-- What is stored of a transaction for a dump, of the request or of the response.
abbrev part : HttpTransaction → Bytes → Bool → HttpTransaction
part t dump has_response = record t {
  raw_data = dump;
  userdata = record t.userdata { has_response = has_response };
}

module _ (join_path : Bytes → Bytes → Bytes) (lib : LogLib) (o : OptionsLogger) (n : ℕ)
    (limited : o.max_size ≡ pos n) (positive : 0 < n)
    (truncates : (s : Bytes) (k : ℕ) → length (lib.truncate s k) ≤ k) where
  -- The end of a write that does not panic and keeps the bound.
  abbrev Saves : Outcome (Unit {0}) × Disk → Disk → Type 0
  Saves r d = (r.0 ≢ panic) × IsWithin n d r.1

  write_to_file-Saves :
      (path s : Bytes) (d : Disk) → length s ≤ n → Saves (write_to_file path s d) d
  unfolding write_to_file
  write_to_file-Saves path s d small = elim (Option-cases (d.refuses path)) [
    | inr (e, refused) ↦ rw (refused, write_to_file) ((λ e. cc), λ other. omega arith)
    | inl open_ ↦ elim (Option-cases (d.breaks path)) [
      | inr (e, broken) ↦
          rw (open_, write_to_file)
            (rw broken ((λ e. cc), λ other. omega (arith, append_file-IsWithin path [] d other)))
      | inl sound ↦
          rw (open_, write_to_file)
            (rw sound ((λ e. cc), λ other. omega (arith, append_file-IsWithin path s d other)))
    ]
  ]

  file_save-Saves :
      (t : HttpTransaction) (d : Disk)
      → length t.raw_data ≤ n
      → Saves (file_save join_path (folder_options o) t d) d
  unfolding file_save
  file_save-Saves t d small = elim (Bool-cases (is_empty o.output_folder)) [
    | inl h ↦ rw h ((λ e. cc), λ other. omega arith)
    | inr h ↦ rw h (write_to_file-Saves _ t.raw_data d small)
  ]

  limit_size-length : (s : Bytes) → length (limit_size lib o.max_size s) ≤ n
  unfolding limit_size
  limit_size-length s = ground (arith, limited, truncates s n)

  save_all-IsWithin :
      (t : HttpTransaction) (d : Disk)
      → length t.raw_data ≤ n
      → (d' : Disk) × (save_all (file_store join_path (folder_options o) ∷ []) t d ≡ ok d')
        × IsWithin n d d'
  unfolding save_all
  save_all-IsWithin t d small =
      let (calm, within) = file_save-Saves t d small in
      (
        (file_save join_path (folder_options o) t d).1,
        elim (Outcome-cases (file_save join_path (folder_options o) t d).0) [
          | inl (e, failed) ↦ rw (failed, save_all) refl
          | inr (inl panicked) ↦ absurd (calm panicked)
          | inr (inr (done, saved)) ↦ rw (saved, save_all) refl
        ],
        within,
      )

  store_writer-IsWithin :
      (t : HttpTransaction) (d : Disk)
      → (d' : Disk) × (store_writer lib (file_logger join_path lib o) t d ≡ ok d') × IsWithin n d d'
  unfolding store_writer
  store_writer-IsWithin t d = elim (Option-cases (part_suffix o t.userdata.has_response)) [
    | inl dropped ↦ (d, rw (dropped, store_writer) refl, λ path. omega arith)
    | inr (suffix, kept) ↦
        let (d', saved, within) =
          save_all-IsWithin (format_transaction lib o suffix t) d
            (unfold format_transaction in limit_size-length _) in
        (d', rw (kept, store_writer) saved, within)
  ]

  -- With a maximal size n above 0, when `Truncate` gives at most the length it is asked for,
  -- and with the file client as the only store: storing a transaction does not fail, whatever
  -- files refuse to be opened or written, and no file grows by more than 2n bytes.
  pub write_stores-IsWithin :
      (t : HttpTransaction) (request : Bytes) (chain : Option ResponseChain) (d : Disk)
      → (d' : Disk) × (write_stores lib (file_logger join_path lib o) t request chain d ≡ ok d')
        × IsWithin (2 * n) d d'
  unfolding write_stores
  write_stores-IsWithin t request none d =
      let (d', stored, within) = store_writer-IsWithin (part t request false) d in
      (d', rw (stored, write_stores) refl, λ path. omega (arith, within path))
  write_stores-IsWithin t request (some c) d =
      let (d₁, stored, within) = store_writer-IsWithin (part t request false) d in
      let (d₂, stored', within') = store_writer-IsWithin (part t c.full_response true) d₁ in
      (d₂, rw (stored, write_stores) stored', λ path. omega (arith, within path, within' path))
