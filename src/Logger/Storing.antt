-- ===== src/Logger/Storing.antt =====
-- `storeWriter` of pkg/logger/logger.go: how a transaction is named, formatted and saved.
pub mod Formatting
use proxify.Common.{
  ℕ, zero, suc, ℤ, pos, negsuc, Bool, true, false, not, ◌&&◌, ◌||◌, Option, none, some, List, [],
  ◌∷◌, ◌++◌, ◌==◌, if◌then◌else◌, is_empty,
}
use proxify.Go.Outcome.{Outcome, ok, err, panic}
use proxify.Go.Strings.{Bytes, codes, has_suffix}
use proxify.Types.{HttpTransaction}
use proxify.Logger.Env.{OptionsLogger, Store, Logger, LogLib}

-- `fmt.Sprintf(format, arg)` for a format with one `%s`.
unfoldable pub sprintf : Bytes → Bytes → Bytes
sprintf [] arg = []
sprintf (c ∷ []) arg = c ∷ []
sprintf (c ∷ d ∷ rest) arg =
    let more = sprintf (d ∷ rest) arg in if c == b'%' && d == b's' then arg ++ rest else c ∷ more

-- The chain of tests for the suffix; `none` is the early return.
unfoldable pub part_suffix : OptionsLogger → Bool → Option Bytes
part_suffix o has_response =
    if not o.dump_request && not o.dump_response
    then some []
    else if o.dump_request && not has_response
    then some (codes ".request")
    else if o.dump_response && has_response
    then some (codes ".response")
    else none

unfoldable pub is_match : Option Bool → Bool
is_match (some true) = true
is_match _ = false

-- The name of the record under which a part is stored.
unfoldable pub store_name : OptionsLogger → Bytes → HttpTransaction → Bytes
store_name o suffix t =
    let name = t.userdata.host ++ (suffix ++ (codes "-" ++ t.userdata.id)) in
    if t.userdata.has_response
      && (not o.dump_request && not o.dump_response)
      && is_match t.userdata.match
    then name ++ codes ".match"
    else name

unfoldable pub limit_size : LogLib → ℤ → Bytes → Bytes
limit_size lib (pos zero) s = s
limit_size lib (pos (suc n)) s = lib.truncate s (suc n)
limit_size lib (negsuc n) s = s

-- `storeWriter` up to its loop over the stores.
unfoldable pub format_transaction :
    LogLib → OptionsLogger → Bytes → HttpTransaction → HttpTransaction
unfolding limit_size
format_transaction lib o suffix t =
    let format = if has_suffix t.data_bytes (codes "\n") then codes "%s" else codes "%s\n" in
    let data_string = sprintf format t.data_bytes in
    let format' = if t.userdata.has_response then codes "\n" ++ format else format in
    record t {
      part_suffix = suffix;
      name = store_name o suffix t;
      format = format';
      data_string = limit_size lib o.max_size data_string;
      raw_data = limit_size lib o.max_size (sprintf format' t.raw_data);
    }

module _ {W : Type 0} where
  -- The loop over the stores: an error of one is logged, and the next is tried.
  unfoldable pub save_all : List (Store W) → HttpTransaction → W → Outcome W
  save_all [] t w = ok w
  save_all (s ∷ stores) t w =
      let (result, w') = s.save t w in
      let rest = save_all stores t w' in elim result [ panic ↦ panic | _ ↦ rest ]

  -- `storeWriter`
  unfoldable pub store_writer : LogLib → Logger W → HttpTransaction → W → Outcome W
  store_writer lib l t w = elim (part_suffix l.options t.userdata.has_response) [
    | none ↦ ok w
    | some suffix ↦ save_all l.stores (format_transaction lib l.options suffix t) w
  ]
