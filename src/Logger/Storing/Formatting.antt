-- ===== src/Logger/Storing/Formatting.antt =====
-- What `storeWriter` hands to the stores.
use proxify.Common.{
  ◌≡◌, ◌≢◌, ◌↔◌, ◌⊎◌, refl, Bool, true, false, none, [], ◌++◌, arith, if◌then◌else◌,
}
use proxify.Go.Strings.{Bytes, codes, has_suffix, has_prefix}
use proxify.Types.{HttpTransaction}
use proxify.Logger.Env.{OptionsLogger, LogLib}
use proxify.Logger.Storing.{sprintf, part_suffix, limit_size, format_transaction}

-- Without dump flags both parts are stored; with one, the parts that it names.
abbrev IsKept : OptionsLogger → Bool → Type 0
IsKept o has_response =
    ((o.dump_request ≡ false) × (o.dump_response ≡ false))
    ⊎ ((o.dump_request ≡ true) × (has_response ≡ false))
    ⊎ ((o.dump_response ≡ true) × (has_response ≡ true))

-- A part of a transaction is stored exactly when there is no dump flag, or the flag of its kind
-- is set.
part_suffix_iff :
    (o : OptionsLogger) (has_response : Bool)
    → (part_suffix o has_response ≢ none) ↔ IsKept o has_response
unfolding part_suffix
part_suffix_iff o has_response = ground arith

sprintf-line : (s : Bytes) → sprintf (codes "%s\n") s ≡ s ++ codes "\n"
unfolding sprintf codes
sprintf-line s = refl

sprintf-newline :
    (s : Bytes) → sprintf (codes "\n" ++ codes "%s\n") s ≡ codes "\n" ++ (s ++ codes "\n")
unfolding sprintf codes
sprintf-newline s = refl

no_newline : has_suffix [] (codes "\n") ≡ false
unfolding has_suffix has_prefix codes
no_newline = refl

-- The dump as it is stored: a line end behind it, and one before it if it is a response.
abbrev pub stored_text : Bool → Bytes → Bytes
stored_text has_response dump = (if has_response then codes "\n" else []) ++ (dump ++ codes "\n")

-- The text of an exchange in a file.
abbrev pub exchange_text : Bytes → Bytes → Bytes
exchange_text dump response = stored_text false dump ++ stored_text true response

pub format_transaction-raw_data :
    (lib : LogLib) (o : OptionsLogger) (suffix : Bytes) (t : HttpTransaction)
    → t.data_bytes ≡ []
    → (format_transaction lib o suffix t).raw_data
      ≡ limit_size lib o.max_size (stored_text t.userdata.has_response t.raw_data)
unfolding format_transaction
format_transaction-raw_data lib o suffix t h =
    rw (h, no_newline) (ground (arith, sprintf-line t.raw_data, sprintf-newline t.raw_data))

pub format_transaction-data_string :
    (lib : LogLib) (o : OptionsLogger) (suffix : Bytes) (t : HttpTransaction)
    → t.data_bytes ≡ []
    → (format_transaction lib o suffix t).data_string ≡ limit_size lib o.max_size (codes "\n")
unfolding format_transaction
format_transaction-data_string lib o suffix t h =
    rw (h, no_newline) (ground (arith, sprintf-line []))
