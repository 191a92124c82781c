-- ===== src/Logger/Worker.antt =====
-- `AsyncWrite` of pkg/logger/logger.go: what the worker does with each transaction.
pub mod Structured
pub mod Inversion
pub mod Entries
pub mod Recording
use proxify.Common.{
  Bool, true, false, not, ◌&&◌, Option, none, some, List, [], ◌∷◌, ◌++◌, leb, if◌then◌else◌,
  is_empty,
}
use proxify.Go.Outcome.{Outcome, ok, err, panic, ◌>>=◌, attempt}
use proxify.Go.Strings.{Bytes, codes}
use proxify.Go.Http.{
  Request, Response, HttpLib, read_all, dump_request, header_get, header_of, Body,
}
use proxify.Types.{
  HttpTransaction, UserData, HttpRequestResponseLog, ResponseChain, level, very_verbose,
  new_http_request_data, new_http_response_data,
}
use proxify.Logger.Env.{OptionsLogger, Store, OutputFileWriter, Logger, LogLib}
use proxify.Logger.Storing.{store_writer}

-- `isASCIICheckRequired`
unfoldable pub is_ascii_check_required : LogLib → Bytes → Bool
is_ascii_check_required lib content_type =
    lib.contains_any content_type
      (codes "application/octet-stream" ∷ codes "application/x-www-form-urlencoded" ∷ [])

-- The bytes that `b, _ := io.ReadAll(body)` yields: what was read, also before an error.
abbrev read_bytes : Body → Bytes
read_bytes b = b.content

-- `dump, _ := httputil.DumpRequest(req, false)`
abbrev pub or_nothing : Outcome Bytes → Outcome Bytes
or_nothing (ok s) = ok s
or_nothing (err e) = ok []
or_nothing panic = panic

-- `debugLogRequest`: the lines printed, and the request, whose body has been read to its end and
-- is not put back.
unfoldable pub debug_log_request :
    LogLib → OptionsLogger → Bytes → Request → Outcome (List Bytes × Request)
debug_log_request lib o dump req =
    if leb (level very_verbose) (level o.verbosity)
    then elim req.body [
      | none ↦ panic
      | some b ↦
          let after : Request = record req { body = (read_all (some b)).1 } in
          if is_ascii_check_required lib (header_get (codes "Content-Type") req.header)
            && not (lib.is_printable_ascii (read_bytes b))
          then (or_nothing (lib.http.dump_without_body after) >>= λ head. ok (head ∷ [], after))
          else ok (dump ∷ [], after)
    ]
    else ok ([], req)

-- `debugLogResponse`
unfoldable pub debug_log_response : LogLib → OptionsLogger → ResponseChain → List Bytes
debug_log_response lib o chain =
    if leb (level very_verbose) (level o.verbosity)
    then if is_ascii_check_required lib
          (header_get (codes "Content-Type") (header_of chain.response.header))
        && not (lib.is_printable_ascii chain.body)
      then chain.headers ∷ []
      else chain.full_response ∷ []
    else []

-- `Fill`, whose failure leaves no chain.
unfoldable pub fill_chain : LogLib → Option Response → Outcome (Option ResponseChain)
fill_chain lib none = ok none
fill_chain lib (some resp) = attempt (lib.fill resp)

-- The lines that an optional chain makes `debugLogResponse` print.
unfoldable pub debug_chain : LogLib → OptionsLogger → Option ResponseChain → List Bytes
debug_chain lib o none = []
debug_chain lib o (some chain) = debug_log_response lib o chain

-- The filter of the structured writer: a match status that is known to be false.
unfoldable pub is_filtered : Option Bool → Bool
is_filtered (some false) = true
is_filtered _ = false

module _ {W : Type 0} where
  -- The deferred write: an error is logged, and nothing is written without a response.
  unfoldable pub write_log : OutputFileWriter W → HttpRequestResponseLog → W → Outcome W
  write_log writer entry w = elim entry.response [
    | none ↦ ok w
    | some r ↦ let (result, w') = writer.write entry w in elim result [ panic ↦ panic | _ ↦ ok w' ]
  ]

  -- The block for the structured writer.
  unfoldable pub write_structured :
      LogLib → Logger W → UserData → Request → Option ResponseChain → W → Outcome (Request × W)
  unfolding write_log
  write_structured lib l userdata req chain w = elim l.s_writer [
    | none ↦ ok (req, w)
    | some writer ↦
        if is_filtered userdata.match
        then ok (req, w)
        else let (made, after) = new_http_request_data lib.http req in
          elim made [
            | panic ↦ panic
            | err e ↦ ok (after, w)
            | ok entry ↦
                write_log writer
                  (record {
                    timestamp = lib.now;
                    url = lib.http.url_string req.url;
                    request = some entry;
                    response = elim chain [
                      | none ↦ none
                      | some c ↦ some (new_http_response_data c)
                    ];
                  })
                  w
                >>= λ w'. ok (after, w')
          ]
  ]

  -- The block for the stores: the request part, then the response part.
  unfoldable pub write_stores :
      LogLib → Logger W → HttpTransaction → Bytes → Option ResponseChain → W → Outcome W
  write_stores lib l t dump chain w =
      if is_empty l.stores
      then ok w
      else let out : HttpTransaction = record t {
        raw_data = dump;
        userdata = record t.userdata { has_response = false };
      } in
        store_writer lib l out w >>= λ w'. elim chain [
          | none ↦ ok w'
          | some c ↦
              store_writer lib l
                (record out {
                  raw_data = c.full_response;
                  userdata = record t.userdata { has_response = true };
                })
                w'
        ]

  -- One round of the loop of `AsyncWrite` for a transaction with a request: the lines printed, the
  -- request object as the round leaves it, and the world.
  unfoldable pub write_round :
      LogLib → Logger W → HttpTransaction → Request → W → Outcome (List Bytes × Request × W)
  unfolding fill_chain debug_chain
  write_round lib l t req w = do
    let (dumped, req₁) = dump_request lib.http req
    dump ← or_nothing dumped
    (printed, req₂) ← debug_log_request lib l.options dump req₁
    chain ← fill_chain lib t.response
    (req₃, w₁) ← write_structured lib l t.userdata req₂ chain w
    w₂ ← write_stores lib l (record t { request = some req₃ }) dump chain w₁
    ok (printed ++ debug_chain lib l.options chain, req₃, w₂)

  -- The round; without a request there is nothing to do.
  unfoldable pub write_transaction :
      LogLib → Logger W → HttpTransaction → W → Outcome (List Bytes × W)
  unfolding write_round
  write_transaction lib l t w = elim t.request [
    | none ↦ ok ([], w)
    | some req ↦ do (printed, after, w') ← write_round lib l t req w; ok (printed, w')
  ]

  -- The loop of `AsyncWrite` over the transactions that the queue delivers.
  unfoldable pub async_write :
      LogLib → Logger W → List HttpTransaction → W → Outcome (List Bytes × W)
  async_write lib l [] w = ok ([], w)
  async_write lib l (t ∷ queue) w = do
    (printed, w₁) ← write_transaction lib l t w
    (more, w₂) ← async_write lib l queue w₁
    ok (printed ++ more, w₂)
