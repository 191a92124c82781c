-- ===== src/Logger/Clients/Files.antt =====
-- The raw logs: what the file client of pkg/logger/file/file.go leaves on the disk for a
-- transaction, and the lines of the JSON lines writer.
use proxify.Common.{
  ◌≡◌, ◌≢◌, refl, sym, subst, Bool, true, false, none, some, [], ◌∷◌, ◌++◌, arith, if◌then◌else◌,
  is_empty,
}
use proxify.Go.Outcome.{ok}
use proxify.Go.Strings.{Bytes, codes}
use proxify.Go.Strings.Equality.{str_eq_refl, str_eq_of_ne}
use proxify.Go.Disk.{Disk, append_file, contents, contents-append_file}
use proxify.Types.{HttpTransaction, UserData, ResponseChain}
use proxify.Logger.Env.{OptionsLogger, Logger, LogLib}
use proxify.Logger.Storing.{
  part_suffix, store_name, limit_size, format_transaction, save_all, store_writer, is_match,
}
use proxify.Logger.Storing.Formatting.{stored_text, format_transaction-raw_data}
use proxify.Logger.Worker.{write_stores}
use proxify.Logger.Clients.{FileOptions, file_store, file_save, write_to_file}

-- The options that `NewLogger` gives the file client.
abbrev pub folder_options : OptionsLogger → FileOptions
folder_options o = record {
  output_folder = o.output_folder;
  output_file = [];
  output_jsonl = false;
}

-- Names without a dump flag: one for the request, and one for the response of a match.
abbrev pub plain_name : UserData → Bytes
plain_name u = u.host ++ (codes "-" ++ u.id)

abbrev pub response_name : UserData → Bytes
response_name u = if is_match u.match then plain_name u ++ codes ".match" else plain_name u

module _ (join_path : Bytes → Bytes → Bytes) (lib : LogLib) (o : OptionsLogger) where
  -- A logger whose one store is the file client.
  abbrev pub file_logger : Logger Disk
  file_logger = record {
    options = o;
    stores = file_store join_path (folder_options o) ∷ [];
    s_writer = none;
  }

  abbrev pub log_path : Bytes → Bytes
  log_path name = join_path o.output_folder (name ++ codes ".txt")

  -- Opening and writing the file work.
  abbrev pub IsWritable : Bytes → Disk → Type 0
  IsWritable path d = (d.refuses path ≡ none) × (d.breaks path ≡ none)

  save_all-append :
      (u : HttpTransaction) (d : Disk) (name raw : Bytes)
      → u.name ≡ name
      → u.raw_data ≡ raw
      → is_empty o.output_folder ≡ false
      → IsWritable (log_path name) d
      → save_all (file_store join_path (folder_options o) ∷ []) u d
        ≡ ok (append_file (log_path name) raw d)
  unfolding save_all file_save write_to_file
  save_all-append u d name raw named holds folder (opens, writes) = ground arith

  store_writer-append :
      (t : HttpTransaction) (suffix : Bytes) (d : Disk)
      → is_empty o.output_folder ≡ false
      → t.data_bytes ≡ []
      → part_suffix o t.userdata.has_response ≡ some suffix
      → IsWritable (log_path (store_name o suffix t)) d
      → store_writer lib file_logger t d
        ≡ ok (
            append_file
              (log_path (store_name o suffix t))
              (limit_size lib o.max_size (stored_text t.userdata.has_response t.raw_data))
              d)
  unfolding store_writer save_all
  store_writer-append t suffix d folder blank kept usable =
      rw (kept, store_writer)
        (save_all-append (format_transaction lib o suffix t) d (store_name o suffix t) _
          (unfold format_transaction in refl) (format_transaction-raw_data lib o suffix t blank)
          folder usable)

  part_suffix-plain :
      (b : Bool) → o.dump_request ≡ false → o.dump_response ≡ false → part_suffix o b ≡ some []
  unfolding part_suffix
  part_suffix-plain b q p = ground arith

  store_name-request :
      (t : HttpTransaction)
      → t.userdata.has_response ≡ false
      → store_name o [] t ≡ plain_name t.userdata
  unfolding store_name
  store_name-request t h = ground arith

  store_name-response :
      (t : HttpTransaction)
      → o.dump_request ≡ false
      → o.dump_response ≡ false
      → t.userdata.has_response ≡ true
      → store_name o [] t ≡ response_name t.userdata
  unfolding store_name
  store_name-response t q p h = ground arith

  -- `storeWriter` without dump flags, for a part whose name is known.
  store_writer-plain :
      (t : HttpTransaction) (name : Bytes) (d : Disk)
      → o.dump_request ≡ false
      → o.dump_response ≡ false
      → is_empty o.output_folder ≡ false
      → t.data_bytes ≡ []
      → store_name o [] t ≡ name
      → IsWritable (log_path name) d
      → store_writer lib file_logger t d
        ≡ ok (
            append_file
              (log_path name)
              (limit_size lib o.max_size (stored_text t.userdata.has_response t.raw_data))
              d)
  store_writer-plain t name d q p folder blank named usable =
      subst
        (λ n.
          store_writer lib file_logger t d
          ≡ ok (
              append_file (log_path n)
                (limit_size lib o.max_size (stored_text t.userdata.has_response t.raw_data)) d))
        named (store_writer-append t [] d folder blank (part_suffix-plain _ q p) (rw named usable))

  -- Both parts, in order, each appended to the file of its name.
  pub write_stores-append :
      (t : HttpTransaction) (dump : Bytes) (c : ResponseChain) (d : Disk)
      → o.dump_request ≡ false
      → o.dump_response ≡ false
      → is_empty o.output_folder ≡ false
      → t.data_bytes ≡ []
      → IsWritable (log_path (plain_name t.userdata)) d
      → IsWritable (log_path (response_name t.userdata)) d
      → write_stores lib file_logger t dump (some c) d
        ≡ ok (
            append_file
              (log_path (response_name t.userdata))
              (limit_size lib o.max_size (stored_text true c.full_response))
              (append_file
                (log_path (plain_name t.userdata))
                (limit_size lib o.max_size (stored_text false dump))
                d))
  unfolding write_stores append_file
  write_stores-append t dump c d q p folder blank first second =
      let asked : HttpTransaction = record t {
        raw_data = dump;
        userdata = record t.userdata { has_response = false };
      } in
      let answered : HttpTransaction = record t {
        raw_data = c.full_response;
        userdata = record t.userdata { has_response = true };
      } in
      let first_saved =
        store_writer-plain asked (plain_name t.userdata) d q p folder blank
          (store_name-request asked refl) first in
      rw first_saved (
        store_writer-plain answered (response_name t.userdata) _ q p folder blank
          (store_name-response answered q p refl) second)

  -- For a transaction with an empty `Data` field that is not a match and whose file can be
  -- written, with an output folder, no dump flags, and the file client as the only store: the
  -- request and then the response, each cut to the maximal size, are appended to one file, that
  -- of the host and the id.
  pub write_stores-together :
      (t : HttpTransaction) (dump : Bytes) (c : ResponseChain) (d : Disk)
      → o.dump_request ≡ false
      → o.dump_response ≡ false
      → is_empty o.output_folder ≡ false
      → t.data_bytes ≡ []
      → is_match t.userdata.match ≡ false
      → IsWritable (log_path (plain_name t.userdata)) d
      → (d' : Disk) × (write_stores lib file_logger t dump (some c) d ≡ ok d')
        × (contents (log_path (plain_name t.userdata)) d'
            ≡ (contents (log_path (plain_name t.userdata)) d
                ++ limit_size lib o.max_size (stored_text false dump))
              ++ limit_size lib o.max_size (stored_text true c.full_response))
  write_stores-together t dump c d q p folder blank unmatched usable =
      let same : response_name t.userdata ≡ plain_name t.userdata = rw unmatched refl in
      (
        _,
        write_stores-append t dump c d q p folder blank usable (rw same usable),
        rw (same, contents-append_file, str_eq_refl, contents-append_file, str_eq_refl) refl,
      )

  -- For a transaction with an empty `Data` field that is a match, with an output folder, no
  -- dump flags, and the file client as the only store: the request is appended to the file of
  -- the host and the id, and the response to the file of that name with ".match" behind it,
  -- each cut to the maximal size, when both files can be written and their paths differ.
  pub write_stores-apart :
      (t : HttpTransaction) (dump : Bytes) (c : ResponseChain) (d : Disk)
      → o.dump_request ≡ false
      → o.dump_response ≡ false
      → is_empty o.output_folder ≡ false
      → t.data_bytes ≡ []
      → is_match t.userdata.match ≡ true
      → IsWritable (log_path (plain_name t.userdata)) d
      → IsWritable (log_path (plain_name t.userdata ++ codes ".match")) d
      → log_path (plain_name t.userdata ++ codes ".match") ≢ log_path (plain_name t.userdata)
      → (d' : Disk) × (write_stores lib file_logger t dump (some c) d ≡ ok d')
        × (contents (log_path (plain_name t.userdata)) d'
            ≡ contents (log_path (plain_name t.userdata)) d
              ++ limit_size lib o.max_size (stored_text false dump))
        × (contents (log_path (plain_name t.userdata ++ codes ".match")) d'
            ≡ contents (log_path (plain_name t.userdata ++ codes ".match")) d
              ++ limit_size lib o.max_size (stored_text true c.full_response))
  write_stores-apart t dump c d q p folder blank matched usable usable' apart =
      let other : response_name t.userdata ≡ plain_name t.userdata ++ codes ".match" =
        rw matched refl in
      (
        _,
        write_stores-append t dump c d q p folder blank usable (rw other usable'),
        rw (other, contents-append_file, str_eq_of_ne _ _ apart, contents-append_file, str_eq_refl)
            refl,
        rw
            (
              other,
              contents-append_file,
              str_eq_refl,
              contents-append_file,
              str_eq_of_ne _ _ (λ e. apart (sym e)),
            )
            refl,
      )
