-- ===== src/Logger/Worker/Entries.antt =====
-- The abstract log of pkg/logger/logger.go: which transactions leave an entry with the structured
-- writer, in which order, and what the entries hold.
use proxify.Common.{◌≡◌, true, false, none, some, List, [], ◌∷◌, leb, if◌then◌else◌}
use proxify.Go.Outcome.{ok, err}
use proxify.Go.Strings.{Bytes}
use proxify.Go.Http.{Request, Response, buffer}
use proxify.Types.{
  HttpTransaction, HttpRequest, HttpRequestResponseLog, ResponseChain, level, very_verbose,
  new_http_response_data,
}
use proxify.Types.Records.{IsComplete}
use proxify.Logger.Env.{OptionsLogger, LogLib}
use proxify.Logger.Worker.{is_filtered}
use proxify.Logger.Worker.Structured.{after_debug}

-- What an entry holds of a transaction.
pub record IsRecorded (lib : LogLib) (o : OptionsLogger) (dump : Request → Bytes)
    (t : HttpTransaction) (e : HttpRequestResponseLog) : Type 0 where
  pub req : Request
  pub resp : Response
  pub chain : ResponseChain
  pub content : Bytes
  pub log : HttpRequest
  pub asked : t.request ≡ some req
  pub answered : t.response ≡ some resp
  pub filled : lib.fill resp ≡ ok chain
  pub kept : is_filtered t.userdata.match ≡ false
  pub readable : req.body ≡ some (buffer content)
  pub timestamp : e.timestamp ≡ lib.now
  pub url : e.url ≡ lib.http.url_string req.url
  pub request : e.request ≡ some log
  pub response : e.response ≡ some (new_http_response_data chain)
  pub complete :
      IsComplete
        (after_debug o req)
        (if leb (level very_verbose) (level o.verbosity) then [] else content)
        (dump (after_debug o req))
        log

-- A transaction without a request, or that the filters reject, or without a response that can be
-- read.
pub data IsSkipped (lib : LogLib) (t : HttpTransaction) : Type 0 where
  no_request : t.request ≡ none → IsSkipped lib t
  rejected : is_filtered t.userdata.match ≡ true → IsSkipped lib t
  no_response : t.response ≡ none → IsSkipped lib t
  unreadable :
      (resp : Response) (e : Bytes)
      → t.response ≡ some resp
      → lib.fill resp ≡ err e
      → IsSkipped lib t

-- The abstract log: the entries of the transactions that are recorded, in order.
pub data Records (lib : LogLib) (o : OptionsLogger) (dump : Request → Bytes)
    : List HttpTransaction → List HttpRequestResponseLog → Type 0 where
  nothing : Records lib o dump [] []
  skip :
      {t : HttpTransaction} {ts : List HttpTransaction} {es : List HttpRequestResponseLog}
      → IsSkipped lib t
      → Records lib o dump ts es
      → Records lib o dump (t ∷ ts) es
  keep :
      {t : HttpTransaction} {ts : List HttpTransaction} {e : HttpRequestResponseLog}
      {es : List HttpRequestResponseLog}
      → IsRecorded lib o dump t e
      → Records lib o dump ts es
      → Records lib o dump (t ∷ ts) (e ∷ es)

-- The body of a transaction's request, if there is one, can be read.
abbrev pub IsReadable : HttpTransaction → Type 0
IsReadable t =
    (req : Request) → t.request ≡ some req → (content : Bytes) × (req.body ≡ some (buffer content))
