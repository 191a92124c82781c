-- ===== src/Logger/Worker/Structured.antt =====
-- The structured log of `AsyncWrite`: when an entry is written, and what it holds of the request.
use proxify.Common.{
  ◌≡◌, ◌≢◌, refl, ap, Bool, false, Option, none, some, List, [], ◌∷◌, ◌++◌, arith, leb,
  if◌then◌else◌, Bool-cases, inl, inr, not, ◌&&◌,
}
use proxify.Go.Outcome.{Outcome, ok, err, panic, ◌>>=◌}
use proxify.Go.Strings.{Bytes, codes}
use proxify.Go.Http.{Request, Response, Url, HttpLib, header_get, buffer, read_all, dump_request}
use proxify.Types.{
  HttpTransaction, UserData, HttpRequest, HttpRequestResponseLog, ResponseChain, level,
  very_verbose, new_http_response_data,
}
use proxify.Types.Records.{IsComplete, new_http_request_data-IsComplete}
use proxify.Logger.Env.{OptionsLogger, OutputFileWriter, Logger, LogLib}
use proxify.Logger.Worker.{
  debug_log_request, is_filtered, write_log, write_structured, write_stores, write_round,
  write_transaction, or_nothing, fill_chain, debug_chain, is_ascii_check_required,
}

pub dump_request-plain :
    (lib : HttpLib) (req : Request) (content : Bytes)
    → req.body ≡ some (buffer content)
    → dump_request lib req ≡ (lib.dump_with_body req, req)
unfolding dump_request
dump_request-plain lib req content h = ground arith

-- The request as it is when the structured entry is made: the debug output has read its body.
abbrev pub after_debug : OptionsLogger → Request → Request
after_debug o req =
    if leb (level very_verbose) (level o.verbosity)
    then record req { body = some (buffer []) }
    else req

pub after_debug-url : (o : OptionsLogger) (req : Request) → (after_debug o req).url ≡ req.url
after_debug-url o req = ground arith

or_nothing-ok : (m : Outcome Bytes) → m ≢ panic → (s : Bytes) × (or_nothing m ≡ ok s)
or_nothing-ok (ok s) h = (s, refl)
or_nothing-ok (err e) h = ([], refl)
or_nothing-ok panic h = absurd (h refl)

write_log-ok :
    {W : Type 0} (writer : OutputFileWriter W) (entry : HttpRequestResponseLog) (w : W)
    → entry.response ≢ none
    → (writer.write entry w).0 ≢ panic
    → write_log writer entry w ≡ ok (writer.write entry w).1
unfolding write_log
write_log-ok writer entry w h calm = ground arith

module _ (lib : LogLib) where
  -- The condition under which only the head of the request is printed.
  abbrev prints_head : Request → Bytes → Bool
  prints_head req content =
      is_ascii_check_required lib (header_get (codes "Content-Type") req.header)
      && not (lib.is_printable_ascii content)

  pub debug_log_request-after :
      (o : OptionsLogger) (dump : Bytes) (req : Request) (content : Bytes)
      → req.body ≡ some (buffer content)
      → ((r : Request) → lib.http.dump_without_body r ≢ panic)
      → (lines : List Bytes) × (debug_log_request lib o dump req ≡ ok (lines, after_debug o req))
  unfolding debug_log_request read_all
  debug_log_request-after o dump req content h calm =
      elim (Bool-cases (leb (level very_verbose) (level o.verbosity))) [
        | inr low ↦ ([], rw (low, debug_log_request) refl)
        | inl high ↦ elim (Bool-cases (prints_head req content)) [
          | inr plain ↦ (dump ∷ [], ground arith)
          | inl binary ↦
              let (head, made) = or_nothing-ok _ (calm (after_debug o req)) in
              (head ∷ [], ground arith)
        ]
      ]

module _ {W : Type 0} (lib : LogLib) where
  pub write_structured-entry :
      (l : Logger W) (writer : OutputFileWriter W) (userdata : UserData) (req : Request) (url : Url)
      (content dump : Bytes) (chain : ResponseChain) (w : W)
      → req.url ≡ url
      → l.s_writer ≡ some writer
      → is_filtered userdata.match ≡ false
      → req.body ≡ some (buffer content)
      → lib.http.dump_with_body req ≡ ok dump
      → ((e : HttpRequestResponseLog) (v : W) → (writer.write e v).0 ≢ panic)
      → (log : HttpRequest) × IsComplete req content dump log
        × (write_structured lib l userdata req (some chain) w
            ≡ ok (
              req,
              (writer.write
                  (record {
                    timestamp = lib.now;
                    url = lib.http.url_string url;
                    request = some log;
                    response = some (new_http_response_data chain);
                  })
                  w).1,
            ))
  unfolding write_structured
  write_structured-entry l writer userdata req url content dump chain w hu hw hf hb hd calm =
      let (log, made, complete) =
        new_http_request_data-IsComplete lib.http req content dump hb hd in
      (
        log,
        complete,
        rw (hw, write_structured)
            (simp (hf, made, hu)
              (ap (λ m. m >>= λ w'. ok (req, w')) (write_log-ok writer _ w (λ e. cc) (calm _ w)))),
      )

  pub write_round-eq :
      (l : Logger W) (t : HttpTransaction) (req req₂ req₃ : Request) (dump : Bytes)
      (lines : List Bytes) (chain : Option ResponseChain) (w w₁ : W)
      → l.stores ≡ []
      → dump_request lib.http req ≡ (ok dump, req)
      → debug_log_request lib l.options dump req ≡ ok (lines, req₂)
      → fill_chain lib t.response ≡ ok chain
      → write_structured lib l t.userdata req₂ chain w ≡ ok (req₃, w₁)
      → write_round lib l t req w ≡ ok (lines ++ debug_chain lib l.options chain, req₃, w₁)
  unfolding write_round write_stores
  write_round-eq l t req req₂ req₃ dump lines chain w w₁ hs hd hp hc hw =
      simp (hd, hp, hc, hw, hs) refl

  pub write_transaction-eq :
      (l : Logger W) (t : HttpTransaction) (req req₂ req₃ : Request) (dump : Bytes)
      (lines : List Bytes) (chain : Option ResponseChain) (w w₁ : W)
      → l.stores ≡ []
      → t.request ≡ some req
      → dump_request lib.http req ≡ (ok dump, req)
      → debug_log_request lib l.options dump req ≡ ok (lines, req₂)
      → fill_chain lib t.response ≡ ok chain
      → write_structured lib l t.userdata req₂ chain w ≡ ok (req₃, w₁)
      → write_transaction lib l t w ≡ ok (lines ++ debug_chain lib l.options chain, w₁)
  unfolding write_transaction
  write_transaction-eq l t req req₂ req₃ dump lines chain w w₁ hs hq hd hp hc hw =
      rw (hq, write_transaction)
        (rw (write_round-eq l t req req₂ req₃ dump lines chain w w₁ hs hd hp hc hw) refl)

  -- What `AsyncWrite` needs of its libraries to log a request and its response.
  pub record IsUsable (writer : OutputFileWriter W) (dump : Request → Bytes) : Type 0 where
    pub dumps : (r : Request) → lib.http.dump_with_body r ≡ ok (dump r)
    pub heads : (r : Request) → lib.http.dump_without_body r ≢ panic
    pub writes : (e : HttpRequestResponseLog) (v : W) → (writer.write e v).0 ≢ panic

  -- When dumps with a body succeed, and dumps without one and the writer do not panic, with a
  -- structured writer and no stores, for an unfiltered transaction with a readable request body
  -- and a response whose chain is filled: the round of the worker writes one entry, with the
  -- time, the URL and the data of the response, and its request part is complete for the
  -- request that the debug output leaves. At the highest verbosity that request has an empty
  -- body, so the entry holds no body; at any other the entry holds the whole body.
  pub write_transaction-entry :
      (l : Logger W) (writer : OutputFileWriter W) (dump : Request → Bytes) (t : HttpTransaction)
      (req : Request) (resp : Response) (chain : ResponseChain) (content : Bytes) (w : W)
      → IsUsable writer dump
      → l.s_writer ≡ some writer
      → l.stores ≡ []
      → is_filtered t.userdata.match ≡ false
      → t.request ≡ some req
      → t.response ≡ some resp
      → req.body ≡ some (buffer content)
      → lib.fill resp ≡ ok chain
      → (lines : List Bytes) × (log : HttpRequest) × (write_transaction lib l t w
          ≡ ok (
            lines,
            (writer.write
                (record {
                  timestamp = lib.now;
                  url = lib.http.url_string req.url;
                  request = some log;
                  response = some (new_http_response_data chain);
                })
                w).1,
          ))
        × IsComplete
            (after_debug l.options req)
            (if leb (level very_verbose) (level l.options.verbosity) then [] else content)
            (dump (after_debug l.options req))
            log
  write_transaction-entry l writer dump t req resp chain content w u hw hs hf hq hr hb hc =
      let same : dump_request lib.http req ≡ (ok (dump req), req) =
        rw (dump_request-plain lib.http req content hb, u.dumps req) refl in
      let filled : fill_chain lib t.response ≡ ok (some chain) =
        unfold fill_chain in rw (hr, hc, fill_chain) refl in
      let (lines, printed) =
        debug_log_request-after lib l.options (dump req) req content hb u.heads in
      let (log, complete, made) =
        write_structured-entry l writer t.userdata (after_debug l.options req) req.url
          (if leb (level very_verbose) (level l.options.verbosity) then [] else content)
          (dump (after_debug l.options req)) chain w (after_debug-url l.options req) hw hf
          (ground arith) (u.dumps _) u.writes in
      (
        lines ++ debug_chain lib l.options (some chain),
        log,
        write_transaction-eq l t req _ _ (dump req) lines (some chain) w _ hs hq same printed filled
            made,
        complete,
      )
