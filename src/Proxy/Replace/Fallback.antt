-- ===== src/Proxy/Replace/Fallback.antt =====
-- `MatchReplaceRequest` changes all of its fields or nothing.
use proxify.Common.{◌≡◌, ◌≢◌, refl, sym, subst, Option, none, some, List, arith, inl, inr}
use proxify.Go.Outcome.{Outcome, ok, err, panic, ◌>>=◌, >>=-IsOk, Outcome-cases, Error}
use proxify.Go.Strings.{Bytes, codes}
use proxify.Go.Http.{Request, Body, buffer, dump_request}
use proxify.Proxy.Env.{ProxyLib}
use proxify.Proxy.Replace.{rewrite, override_request, match_replace_request}

-- What a run leaves: the request as it was, with a failure, or rebuilt from the rewritten dump.
pub data Replaced (lib : ProxyLib) (exprs : List Bytes) (req : Request)
    : Outcome (Unit {0}) × Request → Type 0 where
  kept : {result : Outcome (Unit {0})} → result ≢ ok tt → Replaced lib exprs req (result, req)
  rebuilt :
      (dump message : Bytes) (new after : Request)
      → lib.http.dump_with_body req ≡ ok dump
      → rewrite lib (codes "request") exprs dump ≡ ok message
      → lib.http.read_request message ≡ ok new
      → (after.method ≡ new.method)
        × (after.header ≡ new.header)
        × (after.body ≡ new.body)
        × (after.url ≡ new.url)
      → (after.host ≡ req.host) × (after.content_length ≡ req.content_length)
      → Replaced lib exprs req (ok tt, after)

module _ (lib : ProxyLib) (exprs : List Bytes) (req : Request) where
  -- The part after the dump.
  abbrev finish : Outcome Request → Outcome (Unit {0}) × Request
  finish built = elim built [
    | panic ↦ (panic, req)
    | err e ↦ (err e, req)
    | ok new ↦ elim req.body [ none ↦ (panic, req) | some b ↦ (ok tt, override_request req new) ]
  ]

  finish-Replaced :
      (content dump : Bytes) (built : Outcome Request)
      → req.body ≡ some (buffer content)
      → lib.http.dump_with_body req ≡ ok dump
      → (rewrite lib (codes "request") exprs dump >>= lib.http.read_request) ≡ built
      → Replaced lib exprs req (finish built)
  finish-Replaced content dump panic hb hd h = kept (λ e. cc)
  finish-Replaced content dump (err e) hb hd h = kept (λ e'. cc)
  finish-Replaced content dump (ok new) hb hd h =
      let (message, read, written) = >>=-IsOk _ _ h in
      subst
        (λ (b : Option Body).
          Replaced lib exprs req
            (elim b [ none ↦ (panic, req) | some _ ↦ (ok tt, override_request req new) ]))
        (sym hb)
        (rebuilt dump message new (override_request req new) hd written read
          (refl, refl, refl, refl) (refl, refl))

  match_replace_request-finish :
      (content dump : Bytes)
      → req.body ≡ some (buffer content)
      → lib.http.dump_with_body req ≡ ok dump
      → match_replace_request lib exprs req
        ≡ finish (rewrite lib (codes "request") exprs dump >>= lib.http.read_request)
  unfolding match_replace_request dump_request
  match_replace_request-finish content dump hb hd = ground arith

  match_replace_request-err :
      (content : Bytes) (e : Error)
      → req.body ≡ some (buffer content)
      → lib.http.dump_with_body req ≡ err e
      → match_replace_request lib exprs req ≡ (err e, req)
  unfolding match_replace_request dump_request
  match_replace_request-err content e hb hd = ground arith

  match_replace_request-panic :
      (content : Bytes)
      → req.body ≡ some (buffer content)
      → lib.http.dump_with_body req ≡ panic
      → match_replace_request lib exprs req ≡ (panic, req)
  unfolding match_replace_request dump_request
  match_replace_request-panic content hb hd = ground arith

  -- For a request with a readable body, match-replace either fails and leaves the request as it
  -- was, or succeeds: then it takes the method, header, body and URL of the request that is
  -- read back from the rewritten dump, and keeps its host and content length.
  pub match_replace_request-Replaced :
      (content : Bytes)
      → req.body ≡ some (buffer content)
      → Replaced lib exprs req (match_replace_request lib exprs req)
  match_replace_request-Replaced content hb = elim (Outcome-cases (lib.http.dump_with_body req)) [
    | inl (e, hd) ↦ rw (match_replace_request-err content e hb hd) (kept (λ p. cc))
    | inr (inl hd) ↦ rw (match_replace_request-panic content hb hd) (kept (λ p. cc))
    | inr (inr (dump, hd)) ↦
        rw (match_replace_request-finish content dump hb hd)
          (finish-Replaced content dump _ hb hd refl)
  ]
