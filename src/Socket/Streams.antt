-- ===== src/Socket/Streams.antt =====
-- What a pipe of socket.go delivers, and what it counts.
use proxify.Common.{
  ◌≡◌, refl, ap, ◌∙◌, ℕ, ◌+◌, ◌<◌, ◌%◌, ◌^◌, Bool, true, false, none, List, [], ◌∷◌, ◌++◌, arith,
  length, map, if◌then◌else◌, append-nil, append_assoc,
}
use proxify.Go.Outcome.{Outcome, Error, ok}
use proxify.Go.Strings.{Bytes}
use proxify.Socket.Pipe.{
  PipeLib, SocketConn, apply_dsl, apply_callback, exchange, process, count_bytes, Read, chunk,
  failed, read_failed, Progress, pipe,
}

-- The counter of a direction.
abbrev pub counter : Bool → SocketConn → ℕ
counter true c = c.sent_bytes
counter false c = c.received_bytes

abbrev pub total : List Bytes → ℕ
total [] = 0
total (s ∷ ss) = length s + total ss

process-count_bytes :
    (lib : PipeLib) (is_local : Bool) (c : SocketConn) (b : Bytes) (n : ℕ)
    → process lib is_local (count_bytes is_local n c) b ≡ process lib is_local c b
process-count_bytes lib true c b n = unfold process count_bytes in refl
process-count_bytes lib false c b n = unfold process count_bytes in refl

counter-count_bytes :
    (is_local : Bool) (c : SocketConn) (n : ℕ)
    → counter is_local (count_bytes is_local n c) ≡ (counter is_local c + n) % 2 ^ 64
unfolding count_bytes
counter-count_bytes true c n = refl
counter-count_bytes false c n = refl

module _ (lib : PipeLib) (is_local : Bool) where
  pipe_step :
      (write : Bytes → Outcome ℕ) (f : Bytes → Bytes) (b : Bytes) (reads : List Read)
      (c : SocketConn) (out : List Bytes)
      → process lib is_local c b ≡ ok (f b)
      → write (f b) ≡ ok (length (f b))
      → pipe lib write is_local (chunk b ∷ reads) c out
        ≡ pipe lib write is_local reads (count_bytes is_local (length (f b)) c) (out ++ (f b ∷ []))
  unfolding pipe
  pipe_step write f b reads c out hp hw = rw (hp, pipe) (rw hw refl)

  -- When every chunk is processed without a panic, every write takes all that it is given, and
  -- the counter of the direction is below 2^64: up to the read that fails a pipe has written
  -- what each chunk became, in order and each in one write, has added the number of these bytes
  -- to the counter modulo 2^64, and stops at the read's error.
  pub pipe-delivers :
      (write : Bytes → Outcome ℕ) (f : Bytes → Bytes) (cs : List Bytes) (e : Error)
      (rest : List Read) (c : SocketConn) (out : List Bytes)
      → ((b : Bytes) → process lib is_local c b ≡ ok (f b))
      → ((b : Bytes) → write b ≡ ok (length b))
      → counter is_local c < 2 ^ 64
      → let p = pipe lib write is_local (map chunk cs ++ (failed e ∷ rest)) c out in
        (p.written ≡ out ++ map f cs)
        × (counter is_local p.conn ≡ (counter is_local c + total (map f cs)) % 2 ^ 64)
        × (p.status ≡ read_failed e)
  pipe-delivers write f [] e rest c out hp hw hc =
      unfold pipe in (rw append-nil refl, omega arith, refl)
  pipe-delivers write f (b ∷ cs) e rest c out hp hw hc =
      let c' = count_bytes is_local (length (f b)) c in
      let counted = counter-count_bytes is_local c (length (f b)) in
      let (written, count, status) =
        pipe-delivers write f cs e rest c' (out ++ (f b ∷ []))
          (λ b'. process-count_bytes lib is_local c b' (length (f b)) ∙ hp b') hw
          (omega (arith, counted)) in
      let step = pipe_step write f b (map chunk cs ++ (failed e ∷ rest)) c out (hp b) (hw (f b)) in
      (
        ap (λ (p : Progress). p.written) step ∙ written ∙ rw append_assoc refl,
        ap (λ (p : Progress). counter is_local p.conn) step ∙ count ∙ omega (arith, counted),
        ap (λ (p : Progress). p.status) step ∙ status,
      )

-- A relay without expressions, callback and HTTP server for a direction leaves its chunks alone.
pub process_plain :
    (lib : PipeLib) (is_local : Bool) (c : SocketConn) (b : Bytes)
    → (if is_local then c.request_match_replace_dsl else c.response_match_replace_dsl) ≡ []
    → (if is_local then c.on_request else c.on_response) ≡ none
    → c.has_http_client ≡ false
    → process lib is_local c b ≡ ok b
process_plain lib is_local c b hd hc hh =
    unfold process in rw (hd, hc) (unfold apply_dsl apply_callback exchange in rw hh refl)
