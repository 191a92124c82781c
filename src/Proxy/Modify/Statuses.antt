-- ===== src/Proxy/Modify/Statuses.antt =====
-- The match status that a request and its response are logged with, through both modifiers of
-- proxy.go.
use proxify.Common.{◌≡◌, refl, Bool, Option, none, some, List, [], ◌∷◌, arith, if◌then◌else◌}
use proxify.Go.Outcome.{Outcome, ok}
use proxify.Go.Strings.{codes}
use proxify.Go.Http.{Response, Body, header_del}
use proxify.Types.{UserData}
use proxify.Util.{http_response_to_map}
use proxify.Logger.Queue.{Entry, answered}
use proxify.Proxy.Env.{ProxyLib, Options}
use proxify.Proxy.Modify.{
  eval_filters, response_match, modify_response, start_user_data, finish_modify,
}
use proxify.Proxy.Replace.{is_zero}

-- The response with another reader for its body.
abbrev IsRead : Response → Response → Type 0
IsRead resp r = (b : Option Body) × (r ≡ record resp { body = b })

module _ (lib : ProxyLib) (o : Options) where
  -- The response as the filters see it.
  abbrev pub trimmed : Response → Response
  trimmed resp = record resp {
    header =
        if is_zero resp.content_length
        then header_del (codes "Content-Length") resp.header
        else resp.header;
  }

  abbrev pub response_verdicts : Response → Outcome (List Bool)
  response_verdicts resp =
      (eval_filters (http_response_to_map lib.http) lib.eval_expr o.response_dsl (trimmed resp)
        []).0

  -- One entry is logged, with these user data, for the response as the filters see it, with the
  -- reader that they leave in place of its body.
  abbrev pub IsLogged : UserData → Response → List Entry → Type 0
  IsLogged u resp entries =
      (b : Option Body) × (entries ≡ answered u (some (record (trimmed resp) { body = b })) ∷ [])

  pub finish_modify-logged :
      (context : Option UserData) (u : UserData) (resp : Response)
      → o.response_match_replace_dsl ≡ []
      → (finish_modify lib o context u resp).1.logged ≡ answered u (some resp) ∷ []
  unfolding finish_modify
  finish_modify-logged context u resp h = simp (h, finish_modify) (ground arith)

  pub modify_response-finish :
      (context : Option UserData) (resp after : Response) (results : List Bool)
      → o.on_response_callback ≡ none
      → eval_filters (http_response_to_map lib.http) lib.eval_expr o.response_dsl (trimmed resp) []
        ≡ (ok results, after)
      → modify_response lib o context resp
        ≡ finish_modify lib o context
            (record (start_user_data context) {
              match = response_match (start_user_data context).match results;
            })
            after
  unfolding modify_response
  modify_response-finish context resp after results hc hf = rw (hc, modify_response) (simp hf refl)
