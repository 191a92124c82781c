-- ===== src/Proxy/Env.antt =====
-- What the modifiers of proxy.go work with: the options that they read, and the calls of other
-- packages as parameters.
use proxify.Common.{Bool, Option, List}
use proxify.Go.Outcome.{Outcome}
use proxify.Go.Strings.{Bytes}
use proxify.Go.Format.{print_integer, print_bool, print_bytes}
use proxify.Go.Maps.{Map}
use proxify.Go.Http.{HttpLib, Request, Response, Body}
use proxify.Util.{Value, bool, text, bytes, number}

-- A message after a callback, and the error that the callback returned.
abbrev pub Callback : Type 0 → Type 0
Callback M = M → Outcome (Unit {0}) × M

pub record Options : Type 0 where
  pub request_dsl : List Bytes
  pub response_dsl : List Bytes
  pub request_match_replace_dsl : List Bytes
  pub response_match_replace_dsl : List Bytes
  pub on_request_callback : Option (Callback Request)
  pub on_response_callback : Option (Callback Response)
  pub listen_addr : Bytes

-- `dsl.EvalExpr`, `stringsutil.EqualFoldAny`, `sliceutil.PruneEqual` and
-- `NewReusableReadCloser`, and the service of the built-in pages.
pub record ProxyLib : Type 0 where
  pub http : HttpLib
  pub eval_expr : Bytes → Map Value → Outcome Value
  pub equal_fold_any : Bytes → List Bytes → Bool
  pub prune_equal : List Bytes → Bytes → List Bytes
  pub new_reusable_read_closer : Option Body → Outcome Body
  pub hijack_n_serve : Request → Outcome (Unit {0})

-- `fmt.Sprint`
unfoldable pub sprint : Value → Bytes
sprint (bool b) = print_bool b
sprint (text s) = s
sprint (bytes s) = print_bytes s
sprint (number n) = print_integer n
