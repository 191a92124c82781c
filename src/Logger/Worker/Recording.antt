-- ===== src/Logger/Worker/Recording.antt =====
-- The worker of pkg/logger/logger.go against an abstract log: which transactions of the queue leave
-- an entry with the structured writer, in which order, and what the entries hold.
use proxify.Common.{
  ◌≡◌, ◌≢◌, refl, true, false, Option, none, some, List, [], ◌∷◌, ◌++◌, arith, All, leb,
  if◌then◌else◌, Bool-cases, Option-cases, inl, inr, ◌⊎◌,
}
use proxify.Go.Outcome.{ok, panic, Outcome-cases}
use proxify.Go.Strings.{Bytes}
use proxify.Go.Http.{Request, Response, buffer, dump_request}
use proxify.Types.{
  HttpTransaction, HttpRequestResponseLog, ResponseChain, UserData, level, very_verbose,
  new_http_response_data,
}
use proxify.Types.Records.{new_http_request_data-IsComplete}
use proxify.Logger.Env.{Logger, OutputFileWriter, LogLib}
use proxify.Logger.Worker.{
  is_filtered, fill_chain, write_structured, write_log, write_transaction, async_write,
}
use proxify.Logger.Worker.Entries.{
  Records, nothing, skip, keep, IsSkipped, no_request, rejected, no_response, unreadable,
  IsReadable,
}
use proxify.Logger.Worker.Structured.{
  after_debug, after_debug-url, IsUsable, dump_request-plain, debug_log_request-after,
  write_structured-entry, write_transaction-eq,
}

module _ {W : Type 0} (lib : LogLib) where
  -- The entries in turn, the result of each write dropped.
  abbrev pub write_all : OutputFileWriter W → List HttpRequestResponseLog → W → W
  write_all writer [] w = w
  write_all writer (e ∷ es) w = write_all writer es (writer.write e w).1

module _ {W : Type 0} (lib : LogLib) (l : Logger W) (writer : OutputFileWriter W)
    (dump : Request → Bytes) (usable : IsUsable lib writer dump)
    (calm : (r : Response) → lib.fill r ≢ panic) (structured : l.s_writer ≡ some writer)
    (storeless : l.stores ≡ []) where
  -- What one round does: some lines are printed, and the entries of the transaction are written.
  abbrev Round : HttpTransaction → W → Type 0
  Round t w =
      (lines : List Bytes) × (es : List HttpRequestResponseLog) × (write_transaction lib l t w
        ≡ ok (lines, write_all lib writer es w))
      × ((ts : List HttpTransaction) (fs : List HttpRequestResponseLog)
          → Records lib l.options dump ts fs
          → Records lib l.options dump (t ∷ ts) (es ++ fs))

  fill_chain-cases :
      (t : HttpTransaction)
      → ((fill_chain lib t.response ≡ ok none) × IsSkipped lib t)
        ⊎ ((resp : Response) × (c : ResponseChain) × (t.response ≡ some resp)
            × (lib.fill resp ≡ ok c)
            × (fill_chain lib t.response ≡ ok (some c)))
  unfolding fill_chain
  fill_chain-cases t = elim (Option-cases t.response) [
    | inl absent ↦ inl (rw (absent, fill_chain) refl, no_response absent)
    | inr (resp, present) ↦ elim (Outcome-cases (lib.fill resp)) [
      | inl (e, failed) ↦
          inl (rw (present, fill_chain, failed) refl, unreadable resp e present failed)
      | inr (inl panicked) ↦ absurd (calm resp panicked)
      | inr (inr (c, filled)) ↦
          inr (resp, c, present, filled, rw (present, fill_chain, filled) refl)
    ]
  ]

  pub write_structured-rejected :
      (u : UserData) (req : Request) (chain : Option ResponseChain) (w : W)
      → is_filtered u.match ≡ true
      → write_structured lib l u req chain w ≡ ok (req, w)
  unfolding write_structured
  write_structured-rejected u req chain w h = rw (structured, write_structured) (rw h refl)

  pub write_structured-responseless :
      (u : UserData) (req : Request) (content : Bytes) (w : W)
      → is_filtered u.match ≡ false
      → req.body ≡ some (buffer content)
      → write_structured lib l u req none w ≡ ok (req, w)
  unfolding write_structured write_log
  write_structured-responseless u req content w h hb =
      let (log, made, complete) =
        new_http_request_data-IsComplete lib.http req content (dump req) hb (usable.dumps req) in
      rw (structured, write_structured) (simp (h, made) refl)

  -- A round for a request that can be read, from what its structured block does.
  round_of :
      (t : HttpTransaction) (req : Request) (content : Bytes) (chain : Option ResponseChain) (w : W)
      (es : List HttpRequestResponseLog)
      → t.request ≡ some req
      → req.body ≡ some (buffer content)
      → fill_chain lib t.response ≡ ok chain
      → (write_structured lib l t.userdata (after_debug l.options req) chain w
          ≡ ok (after_debug l.options req, write_all lib writer es w))
      → ((ts : List HttpTransaction) (fs : List HttpRequestResponseLog)
          → Records lib l.options dump ts fs
          → Records lib l.options dump (t ∷ ts) (es ++ fs))
      → Round t w
  round_of t req content chain w es hq hb hc hs records =
      let same : dump_request lib.http req ≡ (ok (dump req), req) =
        rw (dump_request-plain lib.http req content hb, usable.dumps req) refl in
      let (lines, printed) =
        debug_log_request-after lib l.options (dump req) req content hb usable.heads in
      (
        _,
        es,
        write_transaction-eq lib l t req _ _ (dump req) lines chain w _ storeless hq same printed hc
            hs,
        records,
      )

  after_debug-body :
      (req : Request) (content : Bytes)
      → req.body ≡ some (buffer content)
      → (after_debug l.options req).body
        ≡ some
            (buffer (if leb (level very_verbose) (level l.options.verbosity) then [] else content))
  after_debug-body req content h = ground arith

  round_unfiltered :
      (t : HttpTransaction) (req : Request) (content : Bytes) (w : W)
      → t.request ≡ some req
      → req.body ≡ some (buffer content)
      → is_filtered t.userdata.match ≡ false
      → Round t w
  round_unfiltered t req content w hq hb kept = elim (fill_chain-cases t) [
    | inl (absent, skipped) ↦
        round_of t req content none w [] hq hb absent
          (write_structured-responseless t.userdata (after_debug l.options req) _ w kept
            (after_debug-body req content hb))
          (λ ts fs. skip skipped)
    | inr (resp, c, present, filled, some_chain) ↦
        let (log, complete, wrote) =
          write_structured-entry lib l writer t.userdata (after_debug l.options req) req.url _ _ c w
            (after_debug-url l.options req) structured kept (after_debug-body req content hb)
            (usable.dumps _) usable.writes in
        let e : HttpRequestResponseLog = record {
          timestamp = lib.now;
          url = lib.http.url_string req.url;
          request = some log;
          response = some (new_http_response_data c);
        } in
        round_of t req content (some c) w (e ∷ []) hq hb some_chain wrote (λ ts fs. keep (record {
          req = req;
          resp = resp;
          chain = c;
          content = content;
          log = log;
          asked = hq;
          answered = present;
          filled = filled;
          kept = kept;
          readable = hb;
          timestamp = refl;
          url = refl;
          request = refl;
          response = refl;
          complete = complete;
        }))
  ]

  round_requestless : (t : HttpTransaction) (w : W) → t.request ≡ none → Round t w
  unfolding write_transaction
  round_requestless t w h = ([], [], rw (h, write_transaction) refl, λ ts fs. skip (no_request h))

  round_rejected :
      (t : HttpTransaction) (req : Request) (content : Bytes) (w : W)
      → t.request ≡ some req
      → req.body ≡ some (buffer content)
      → is_filtered t.userdata.match ≡ true
      → Round t w
  round_rejected t req content w hq hb out = elim (fill_chain-cases t) [
    | inl (absent, _) ↦
        round_of t req content none w [] hq hb absent
          (write_structured-rejected t.userdata (after_debug l.options req) none w out)
          (λ ts fs. skip (rejected out))
    | inr (resp, c, present, filled, some_chain) ↦
        round_of t req content (some c) w [] hq hb some_chain
          (write_structured-rejected t.userdata (after_debug l.options req) (some c) w out)
          (λ ts fs. skip (rejected out))
  ]

  round : (t : HttpTransaction) (w : W) → IsReadable t → Round t w
  round t w readable = elim (Option-cases t.request) [
    | inl absent ↦ round_requestless t w absent
    | inr (req, present) ↦
        let (content, hb) = readable req present in
        elim (Bool-cases (is_filtered t.userdata.match)) [
          | inl out ↦ round_rejected t req content w present hb out
          | inr kept ↦ round_unfiltered t req content w present hb kept
        ]
  ]

  write_all-append :
      (es fs : List HttpRequestResponseLog) (w : W)
      → write_all lib writer (es ++ fs) w ≡ write_all lib writer fs (write_all lib writer es w)
  write_all-append [] fs w = refl
  write_all-append (e ∷ es) fs w = write_all-append es fs (writer.write e w).1

  -- For a logger with a structured writer and no stores, over libraries that dump every
  -- request, write every entry without a panic, and do not panic on a response: the worker
  -- takes any list of transactions whose requests have readable bodies, and what it gives to
  -- the writer are exactly the entries of the abstract log of that list. There a transaction
  -- has an entry exactly when it has a request, passes the filters, and has a response that can
  -- be read, and the entries are in the order of the transactions.
  pub async_write-Records :
      (ts : List HttpTransaction) (w : W)
      → All IsReadable ts
      → (lines : List Bytes) × (es : List HttpRequestResponseLog) × (async_write lib l ts w
          ≡ ok (lines, write_all lib writer es w))
        × Records lib l.options dump ts es
  unfolding async_write round
  async_write-Records [] w _ = ([], [], refl, nothing)
  async_write-Records (t ∷ ts) w (readable, rest) =
      let (lines, es, wrote, records) = round t w readable in
      let (more, fs, later, following) = async_write-Records ts (write_all lib writer es w) rest in
      (
        lines ++ more,
        es ++ fs,
        rw (wrote, async_write) (rw later (rw (write_all-append es fs w) refl)),
        records ts fs following,
      )
