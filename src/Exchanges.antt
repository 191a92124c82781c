-- ===== src/Exchanges.antt =====
-- An exchange from end to end: the modifiers of proxy.go hand a request and its response to the
-- queue of pkg/logger, and the worker makes entries of them.
use proxify.Common.{
  ◌≡◌, ◌≢◌, ◌↔◌, refl, ap, Bool, true, false, Option, none, some, List, [], ◌∷◌, ◌++◌, arith, All,
  inl, inr, ◌⊎◌, append-nil,
}
use proxify.Go.Outcome.{ok, panic}
use proxify.Go.Strings.{Bytes}
use proxify.Go.Http.{Request, Response, HttpLib, buffer, read_all, dump_response}
use proxify.Types.{HttpTransaction, HttpRequestResponseLog, UserData, ResponseChain}
use proxify.Util.{http_response_to_map}
use proxify.Util.Matching.{eval_bool_slice_iff}
use proxify.Logger.Env.{Logger, OptionsLogger, OutputFileWriter, LogLib}
use proxify.Logger.Queue.{
  Entry, asked, answered, transactions, all_transactions, request_transaction, response_transaction,
}
use proxify.Logger.Worker.{async_write, is_filtered}
use proxify.Logger.Worker.Structured.{IsUsable}
use proxify.Logger.Worker.Entries.{
  Records, nothing, skip, keep, IsRecorded, IsSkipped, no_request, rejected, no_response,
  unreadable, IsReadable,
}
use proxify.Logger.Worker.Recording.{write_all, async_write-Records}
use proxify.Proxy.Env.{ProxyLib, Options}
use proxify.Proxy.Modify.{
  modify_request, modify_response, request_match, response_match, remove_br_encoding,
  start_user_data,
}
use proxify.Proxy.Modify.Filters.{All-append_iff}
use proxify.Proxy.Modify.Transparency.{
  is_hijacked, request_verdicts, request_user_data, unmeasured, modify_request-transparent,
  eval_filters-keeps,
}
use proxify.Proxy.Modify.Statuses.{
  trimmed, response_verdicts, modify_response-finish, finish_modify-logged,
}

http_response_to_map-keeps :
    (lib : HttpLib) (resp : Response) (content : Bytes)
    → resp.body ≡ some (buffer content)
    → (http_response_to_map lib resp).1 ≡ resp
unfolding http_response_to_map read_all dump_response
http_response_to_map-keeps lib resp content h = ground arith

is_filtered-match_iff :
    (bs cs : List Bool)
    → (is_filtered (response_match (request_match bs) cs) ≡ false) ↔ All (λ b. b ≡ true) (bs ++ cs)
unfolding is_filtered response_match request_match
is_filtered-match_iff [] [] = ground arith
is_filtered-match_iff [] (c ∷ cs) = ground (arith, eval_bool_slice_iff (c ∷ cs))
is_filtered-match_iff (b ∷ bs) [] = ground (arith, eval_bool_slice_iff (b ∷ bs), append-nil bs)
is_filtered-match_iff (b ∷ bs) (c ∷ cs) =
    ground (
      arith,
      eval_bool_slice_iff (b ∷ bs),
      eval_bool_slice_iff (c ∷ cs),
      All-append_iff bs (c ∷ cs),
    )

-- The user data of the response's entry.
abbrev pub answer_user_data : Bytes → Request → List Bool → List Bool → UserData
answer_user_data id given bs cs = record {
  id = id;
  match = response_match (request_match bs) cs;
  has_response = true;
  host = given.host;
}

module _ (lib : ProxyLib) (o : Options) (id : Bytes) (given : Request) (resp : Response) where
  -- The entries of both modifiers, in order.
  abbrev pub exchange_entries : List Entry
  exchange_entries =
      let (r, asked_for) = modify_request lib o id given in
      asked_for.logged ++ (modify_response lib o asked_for.user_data resp).1.logged

  -- No callback and no match-replace expression, readable bodies, filters that give verdicts, and a
  -- host that is not that of the built-in pages.
  pub record IsPlain (content body : Bytes) (bs cs : List Bool) : Type 0 where
    pub given_body : given.body ≡ some (buffer content)
    pub resp_body : resp.body ≡ some (buffer body)
    pub no_request_callback : o.on_request_callback ≡ none
    pub no_response_callback : o.on_response_callback ≡ none
    pub no_request_replace : o.request_match_replace_dsl ≡ []
    pub no_response_replace : o.response_match_replace_dsl ≡ []
    pub proxied : is_hijacked lib o given.host ≡ false
    pub request_filtered : request_verdicts lib o given ≡ ok bs
    pub response_filtered : response_verdicts lib o resp ≡ ok cs

  exchange_entries-eq :
      (content body : Bytes) (bs cs : List Bool)
      → IsPlain content body bs cs
      → exchange_entries
        ≡ asked
            (request_user_data lib o id given bs)
            (some (remove_br_encoding lib (unmeasured lib o given)))
          ∷ answered (answer_user_data id given bs cs) (some (trimmed lib o resp))
          ∷ []
  unfolding start_user_data
  exchange_entries-eq content body bs cs h =
      let kept =
        eval_filters-keeps (http_response_to_map lib.http) lib.eval_expr (trimmed lib o resp)
          (http_response_to_map-keeps lib.http (trimmed lib o resp) body h.resp_body) o.response_dsl
          [] in
      rw
        (modify_request-transparent lib o id given content bs h.given_body h.no_request_callback
          h.no_request_replace h.proxied h.request_filtered)
        (rw
          (modify_response-finish lib o (some (request_user_data lib o id given bs)) resp
            (trimmed lib o resp) cs h.no_response_callback (λ i. (h.response_filtered i, kept i)))
          (rw
            (finish_modify-logged lib o (some (request_user_data lib o id given bs))
              (answer_user_data id given bs cs) (trimmed lib o resp) h.no_response_replace)
            refl))

module _ (lib : LogLib) (o : OptionsLogger) (dump : Request → Bytes) where
  Records-responseless :
      {t : HttpTransaction} {ts : List HttpTransaction} {es : List HttpRequestResponseLog}
      → t.response ≡ none
      → Records lib o dump (t ∷ ts) es
      → Records lib o dump ts es
  Records-responseless h (skip s r) = r
  Records-responseless h (keep k r) = absurd (cc (h, k.answered))

  Records-single :
      {t : HttpTransaction} {es : List HttpRequestResponseLog}
      → Records lib o dump (t ∷ []) es
      → ((es ≡ []) × IsSkipped lib t)
        ⊎ ((e : HttpRequestResponseLog) × (es ≡ e ∷ []) × IsRecorded lib o dump t e)
  Records-single (skip s nothing) = inl (refl, s)
  Records-single (keep {e = e} k nothing) = inr (e, refl, k)

  -- What one transaction with a request and a response that can be filled leaves.
  Records-answered :
      (t : HttpTransaction) (es : List HttpRequestResponseLog) (req : Request) (resp : Response)
      (c : ResponseChain)
      → t.request ≡ some req
      → t.response ≡ some resp
      → lib.fill resp ≡ ok c
      → Records lib o dump (t ∷ []) es
      → ((is_filtered t.userdata.match ≡ false)
          × (e : HttpRequestResponseLog) × (es ≡ e ∷ [])
          × IsRecorded lib o dump t e)
        ⊎ ((is_filtered t.userdata.match ≡ true) × (es ≡ []))
  Records-answered t es req resp c hq hp hc records = elim (Records-single records) [
    | inr (e, one, k) ↦ inl (k.kept, e, one, k)
    | inl (none_left, no_request absent) ↦ absurd (cc (hq, absent))
    | inl (none_left, rejected out) ↦ inr (out, none_left)
    | inl (none_left, no_response absent) ↦ absurd (cc (hp, absent))
    | inl (none_left, unreadable resp' e present failed) ↦
        absurd (ground (arith, ap (λ (r : Option Response). r) present))
  ]

module _ {W : Type 0} (lib : LogLib) (l : Logger W) (writer : OutputFileWriter W)
    (dump : Request → Bytes) (usable : IsUsable lib writer dump)
    (fills : (r : Response) → (c : ResponseChain) × (lib.fill r ≡ ok c))
    (structured : l.s_writer ≡ some writer) (storeless : l.stores ≡ []) where
  fills-ne-panic : (r : Response) → lib.fill r ≢ panic
  fills-ne-panic r h = let (c, filled) = fills r in cc

  -- A request and the response to a request pass through both modifiers, and the worker takes
  -- what was logged. When there are no callbacks and match-replace expressions, the bodies can
  -- be read, the host is not that of the built-in pages, every filter gives a verdict, every
  -- response can be filled, every request can be dumped and every entry written, and the logger
  -- has a structured writer and no stores: the worker gives the writer one entry, with the URL
  -- of the request that was answered, if all verdicts of both sides are true, and none
  -- otherwise.
  pub exchange_entries-leaves :
      (proxy : ProxyLib) (o : Options) (id : Bytes) (given sent : Request) (resp : Response)
      (content body left : Bytes) (bs cs : List Bool) (w : W)
      → IsPlain proxy o id given resp content body bs cs
      → resp.request ≡ some sent
      → sent.body ≡ some (buffer left)
      → (lines : List Bytes) × (es : List HttpRequestResponseLog) × (async_write lib l
            (all_transactions (exchange_entries proxy o id given resp))
            w
          ≡ ok (lines, write_all lib writer es w))
        × ((All (λ b. b ≡ true) (bs ++ cs)
              × (e : HttpRequestResponseLog) × (es ≡ e ∷ [])
              × (e.url ≡ lib.http.url_string sent.url))
            ⊎ ((¬ All (λ b. b ≡ true) (bs ++ cs)) × (es ≡ [])))
  unfolding transactions request_transaction response_transaction remove_br_encoding
  exchange_entries-leaves proxy o id given sent resp content body left bs cs w plain hs hb =
      let first =
        request_transaction (request_user_data proxy o id given bs)
          (remove_br_encoding proxy (unmeasured proxy o given)) in
      let second = response_transaction (answer_user_data id given bs cs) (trimmed proxy o resp) in
      let readable : All IsReadable (first ∷ second ∷ []) = (
        (λ req e. (content, ground (arith, e, plain.given_body))),
        ((λ req e. (left, ground (arith, e, hs, hb))), tt),
      ) in
      let (lines, es, wrote, records) =
        async_write-Records lib l writer dump usable fills-ne-panic structured storeless
          (first ∷ second ∷ []) w readable in
      let (c, filled) = fills (trimmed proxy o resp) in
      let (to, from) = is_filtered-match_iff bs cs in
      (
        lines,
        es,
        rw (exchange_entries-eq proxy o id given resp content body bs cs plain) wrote,
        elim (Records-answered lib l.options dump second es sent (trimmed proxy o resp) c hs refl
            filled (Records-responseless lib l.options dump refl records)) [
              | inl (kept, e, one, k) ↦ inl (to kept, e, one, ground (arith, hs, k.url, k.asked))
              | inr (out, none_left) ↦ inr (λ all. cc (from all, out), none_left)
            ],
      )
