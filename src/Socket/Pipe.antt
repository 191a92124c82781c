-- ===== src/Socket/Pipe.antt =====
-- `pipe` of socket.go: one direction of a relay, a chunk at a time.
use proxify.Common.{
  ℕ, ◌+◌, ◌%◌, ◌^◌, Bool, true, false, Option, none, some, List, [], ◌∷◌, ◌++◌, if◌then◌else◌,
}
use proxify.Go.Outcome.{Outcome, Error, ok, err, panic, ◌>>=◌}
use proxify.Go.Strings.{Bytes, codes}
use proxify.Go.Maps.{Map, insert}
use proxify.Util.{Value, bytes}

-- What a connection works with: `dsl.EvalExpr`, and the POST of a chunk to a URL, whose failure
-- leaves the chunk; of an answer, what was read of its body counts.
pub record PipeLib : Type 0 where
  pub eval_expr : Bytes → Map Value → Outcome Value
  pub post : Bytes → Bytes → Outcome Bytes

-- The fields of `SocketConn` that the pipes read and write.
pub record SocketConn : Type 0 where
  pub sent_bytes : ℕ
  pub received_bytes : ℕ
  pub has_http_client : Bool
  pub http_server : Bytes
  pub request_match_replace_dsl : List Bytes
  pub response_match_replace_dsl : List Bytes
  pub on_request : Option (Bytes → Bytes)
  pub on_response : Option (Bytes → Bytes)

-- The loop over the expressions: a failure keeps the chunk, and what is no `[]byte` panics.
unfoldable pub apply_dsl : PipeLib → List Bytes → Bytes → Outcome Bytes
apply_dsl lib [] b = ok b
apply_dsl lib (expr ∷ exprs) b = elim (lib.eval_expr expr (insert (codes "data") (bytes b) [])) [
  | panic ↦ panic
  | err e ↦ apply_dsl lib exprs b
  | ok (bytes new) ↦ apply_dsl lib exprs new
  | ok _ ↦ panic
]

unfoldable pub apply_callback : Option (Bytes → Bytes) → Bytes → Bytes
apply_callback none b = b
apply_callback (some f) b = f b

-- The exchange with the HTTP server, if there is one.
unfoldable pub exchange : PipeLib → SocketConn → Bytes → Outcome Bytes
exchange lib c b =
    if c.has_http_client
    then elim (lib.post c.http_server b) [ panic ↦ panic | err e ↦ ok b | ok answer ↦ ok answer ]
    else ok b

-- What is done to a chunk between its read and its write.
unfoldable pub process : PipeLib → Bool → SocketConn → Bytes → Outcome Bytes
unfolding apply_callback exchange
process lib is_local c b = do
  replaced ←
      apply_dsl lib (if is_local then c.request_match_replace_dsl else c.response_match_replace_dsl)
        b
  exchange lib c (apply_callback (if is_local then c.on_request else c.on_response) replaced)

-- `uint64` addition.
abbrev pub add64 : ℕ → ℕ → ℕ
add64 a b = (a + b) % 2 ^ 64

unfoldable pub count_bytes : Bool → ℕ → SocketConn → SocketConn
count_bytes true n c = record c { sent_bytes = add64 c.sent_bytes n }
count_bytes false n c = record c { received_bytes = add64 c.received_bytes n }

-- A read gives a chunk, or the error that ends the pipe.
pub data Read : Type 0 where
  chunk : Bytes → Read
  failed : Error → Read

-- How a pipe stands: it waits for a read, or it has called `err`, or it has panicked.
pub data Status : Type 0 where
  waiting : Status
  read_failed : Error → Status
  write_failed : Error → Status
  panicked : Status

-- What the loop has done so far.
pub record Progress : Type 0 where
  pub conn : SocketConn
  pub written : List Bytes
  pub status : Status

-- The loop over the reads. `write` is the other connection: the number of bytes that it takes.
unfoldable pub pipe :
    PipeLib → (Bytes → Outcome ℕ) → Bool → List Read → SocketConn → List Bytes → Progress
pipe lib write is_local [] c out = record { conn = c; written = out; status = waiting }
pipe lib write is_local (failed e ∷ reads) c out = record {
  conn = c;
  written = out;
  status = read_failed e;
}
pipe lib write is_local (chunk b ∷ reads) c out = elim (process lib is_local c b) [
  | panic ↦ record { conn = c; written = out; status = panicked }
  | err e ↦ record { conn = c; written = out; status = panicked }
  | ok sent ↦ elim (write sent) [
    | panic ↦ record { conn = c; written = out; status = panicked }
    | err e ↦ record { conn = c; written = out; status = write_failed e }
    | ok n ↦ pipe lib write is_local reads (count_bytes is_local n c) (out ++ (sent ∷ []))
  ]
]
