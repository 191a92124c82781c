-- ===== src/Proxy/Modify/Transparency.antt =====
-- What a proxied message keeps: the filters read it and put it back, and without match-replace
-- expressions a request goes out as it came but for its length and its encodings.
use proxify.Common.{◌≡◌, refl, Bool, true, false, none, some, List, [], ◌∷◌, ◌++◌, arith, negsuc}
use proxify.Go.Outcome.{Outcome, ok}
use proxify.Go.Strings.{Bytes, codes}
use proxify.Go.Maps.{Map}
use proxify.Go.Http.{Request, HttpLib, buffer, read_all, dump_request}
use proxify.Types.{UserData}
use proxify.Util.{Value, http_request_to_map}
use proxify.Logger.Queue.{asked}
use proxify.Proxy.Env.{ProxyLib, Options}
use proxify.Proxy.Modify.{
  eval_filters, request_match, modify_request, remove_br_encoding, finish_request,
}

http_request_to_map-keeps :
    (lib : HttpLib) (req : Request) (content : Bytes)
    → req.body ≡ some (buffer content)
    → (http_request_to_map lib req).1 ≡ req
unfolding http_request_to_map read_all dump_request
http_request_to_map-keeps lib req content h = ground arith

module _ {M : Type 0} (to_map : M → Outcome (Map Value) × M)
    (eval : Bytes → Map Value → Outcome Value) (m : M) (keeps : (to_map m).1 ≡ m) where
  pub eval_filters-keeps :
      (exprs : List Bytes) (results : List Bool) → (eval_filters to_map eval exprs m results).1 ≡ m
  unfolding eval_filters
  eval_filters-keeps [] results = refl
  eval_filters-keeps (e ∷ exprs) results = ground (
    arith,
    keeps,
    eval_filters-keeps exprs (results ++ (false ∷ [])),
    eval_filters-keeps exprs (results ++ (true ∷ [])),
  )

module _ (lib : ProxyLib) (o : Options) where
  -- The request is for the built-in pages.
  abbrev pub is_hijacked : Bytes → Bool
  is_hijacked host =
      lib.equal_fold_any host
        (codes "proxify" ∷ codes "proxify:443" ∷ codes "proxify:80" ∷ o.listen_addr ∷ [])

  abbrev pub unmeasured : Request → Request
  unmeasured req = record req { content_length = negsuc 0 }

  abbrev pub request_verdicts : Request → Outcome (List Bool)
  request_verdicts req =
      (eval_filters (http_request_to_map lib.http) lib.eval_expr o.request_dsl (unmeasured req)
        []).0

  abbrev pub request_user_data : Bytes → Request → List Bool → UserData
  request_user_data id req results = record {
    id = id;
    match = request_match results;
    has_response = false;
    host = req.host;
  }

  modify_request-finish :
      (id : Bytes) (given after : Request) (results : List Bool)
      → o.on_request_callback ≡ none
      → is_hijacked given.host ≡ false
      → eval_filters
          (http_request_to_map lib.http)
          lib.eval_expr
          o.request_dsl
          (unmeasured given)
          []
        ≡ (ok results, after)
      → modify_request lib o id given
        ≡ finish_request lib o (request_user_data id given results) after
  unfolding modify_request
  modify_request-finish id given after results hc hh hf =
      rw (hh, modify_request) (rw hc (simp hf refl))

  -- Without a callback and match-replace expressions, a request with a readable body that is
  -- not for the built-in pages, and on which every filter gives a verdict, leaves as it came
  -- but for its content length, which is unknown, and its accepted encodings. It is logged
  -- once, with the id, its host and the status of the verdicts, which the context keeps.
  pub modify_request-transparent :
      (id : Bytes) (given : Request) (content : Bytes) (results : List Bool)
      → given.body ≡ some (buffer content)
      → o.on_request_callback ≡ none
      → o.request_match_replace_dsl ≡ []
      → is_hijacked given.host ≡ false
      → request_verdicts given ≡ ok results
      → modify_request lib o id given ≡ (
        ok tt,
        record {
          message = remove_br_encoding lib (unmeasured given);
          user_data = some (request_user_data id given results);
          logged =
              asked
                (request_user_data id given results)
                (some (remove_br_encoding lib (unmeasured given)))
              ∷ [];
        },
      )
  modify_request-transparent id given content results hb hc hr hh hv =
      let kept =
        eval_filters-keeps (http_request_to_map lib.http) lib.eval_expr (unmeasured given)
          (http_request_to_map-keeps lib.http (unmeasured given) content hb) o.request_dsl [] in
      rw (modify_request-finish id given (unmeasured given) results hc hh (λ i. (hv i, kept i)))
        (unfold finish_request in simp (hr, finish_request) refl)
