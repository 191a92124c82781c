-- ===== src/Proxy/Replace.antt =====
-- `MatchReplaceRequest` and `MatchReplaceResponse` of proxy.go.
pub mod Fallback
use proxify.Common.{
  ℤ, pos, zero, negsuc, Bool, true, false, Option, none, some, List, [], ◌∷◌, ◌++◌, if◌then◌else◌,
}
use proxify.Go.Outcome.{Outcome, ok, err, panic, ◌>>=◌}
use proxify.Go.Strings.{Bytes, codes}
use proxify.Go.Maps.{Map, insert}
use proxify.Go.Http.{Request, Response, HttpLib, Body, dump_request, dump_response, header_del}
use proxify.Util.{Value, text}
use proxify.Proxy.Env.{ProxyLib, sprint}

-- The loop over the expressions: each result becomes the message of the next.
unfoldable pub rewrite : ProxyLib → Bytes → List Bytes → Bytes → Outcome Bytes
rewrite lib key [] message = ok message
rewrite lib key (expr ∷ exprs) message = do
  v ← lib.eval_expr expr (insert key (text message) [])
  rewrite lib key exprs (sprint v)

-- The fields that are taken from the rebuilt request.
abbrev pub override_request : Request → Request → Request
override_request req new = record req {
  method = new.method;
  header = new.header;
  body = new.body;
  url = new.url;
}

-- `MatchReplaceRequest`: the error, and the request. Closing a nil body panics.
unfoldable pub match_replace_request :
    ProxyLib → List Bytes → Request → Outcome (Unit {0}) × Request
match_replace_request lib exprs req =
    let (dumped, after) = dump_request lib.http req in
    elim dumped [
      | panic ↦ (panic, after)
      | err e ↦ (err e, after)
      | ok dump ↦ elim (rewrite lib (codes "request") exprs dump >>= lib.http.read_request) [
        | panic ↦ (panic, after)
        | err e ↦ (err e, after)
        | ok new ↦ elim after.body [
          | none ↦ (panic, after)
          | some b ↦ (ok tt, override_request after new)
        ]
      ]
    ]

unfoldable pub is_zero : ℤ → Bool
is_zero (pos zero) = true
is_zero _ = false

-- The end of `MatchReplaceResponse`, with the header in place.
finish_response : Outcome Body → Response → Outcome (Unit {0}) × Response
finish_response panic resp = (panic, resp)
finish_response (err e) resp = (err e, record resp { body = none })
finish_response (ok b) resp = (
  ok tt,
  record resp {
    body = some b;
    header =
        if is_zero resp.content_length
        then header_del (codes "Content-Length") resp.header
        else resp.header;
  },
)

-- `MatchReplaceResponse`, which marks the length as unknown before anything else.
unfoldable pub match_replace_response :
    ProxyLib → List Bytes → Response → Outcome (Unit {0}) × Response
unfolding finish_response
match_replace_response lib exprs resp =
    let (dumped, after) = dump_response lib.http (record resp { content_length = negsuc 0 }) in
    elim dumped [
      | panic ↦ (panic, after)
      | err e ↦ (err e, after)
      | ok dump ↦ elim (rewrite lib (codes "response") exprs dump >>= lib.http.read_response) [
        | panic ↦ (panic, after)
        | err e ↦ (err e, after)
        | ok new ↦ elim after.body [
          | none ↦ (panic, after)
          | some b ↦
              finish_response (lib.new_reusable_read_closer new.body)
                (record after { header = new.header })
        ]
      ]
    ]
