-- ===== src/Socket/Relays/Bypass.antt =====
-- The HTTP proxy of cmd/mitmrelay/mitmrelay.go is passed by: its relays have no URL to post to.
use proxify.Common.{
  ◌≡◌, refl, sym, ap, ◌∙◌, subst, ◌++◌, ℤ, pos, negsuc, Bool, false, Option, none, some, List, [],
  ◌∷◌, arith, All, is_empty, if◌then◌else◌, Bool-cases, inl, inr,
}
use proxify.Go.Outcome.{Outcome, Error, ok, err, panic, ◌>>=◌, >>=-ok, ok_injective, Outcome-cases}
use proxify.Go.Strings.{Bytes, codes, split_text}
use proxify.Socket.Options.{SocketProxyOptions, set_timeout, relay_options, clone}
use proxify.Socket.Pipe.{PipeLib, SocketConn, apply_dsl, apply_callback, exchange, process}
use proxify.Socket.Dialing.{DialLib, Prepared, dial_remote, prepare, proxy_conn}
use proxify.Socket.Relays.{
  RelayFlags, shared_options, load_config, addresses, start_relays, main_relays,
}

module _ {T C F : Type 0} where
  -- No HTTP server, as the options of the relays have it.
  abbrev IsServerless : SocketProxyOptions T C F → Type 0
  IsServerless o = o.http_server ≡ []

  set_timeout-IsServerless :
      (t : ℤ) (o : SocketProxyOptions T C F) → IsServerless o → IsServerless (set_timeout t o)
  unfolding set_timeout
  set_timeout-IsServerless (pos n) o h = h
  set_timeout-IsServerless (negsuc n) o h = h

  started-IsServerless :
      (o : SocketProxyOptions T C F) (pair : Option (Bytes × Bytes))
      (rest : List (SocketProxyOptions T C F))
      → IsServerless o
      → All IsServerless rest
      → All IsServerless
          (elim pair [ none ↦ rest | some pair ↦ relay_options o pair.0 pair.1 ∷ rest ])
  unfolding relay_options clone
  started-IsServerless o none rest h hs = hs
  started-IsServerless o (some pair) rest h hs = (h, hs)

  start_relays-IsServerless :
      (o : SocketProxyOptions T C F) (relays : List Bytes)
      → IsServerless o
      → All IsServerless (start_relays o relays)
  unfolding start_relays relay_options clone
  start_relays-IsServerless o [] h = tt
  start_relays-IsServerless o (r ∷ relays) h =
      started-IsServerless o (addresses (split_text r (codes "=>"))) _ h
        (start_relays-IsServerless o relays h)

  main_relays-IsServerless :
      (unset : T) (load_key_pair : Bytes → Bytes → Outcome C) (f : RelayFlags)
      (os : List (SocketProxyOptions T C F))
      → main_relays unset load_key_pair f ≡ ok os
      → All IsServerless os
  unfolding main_relays shared_options
  main_relays-IsServerless unset load f os h =
      >>=-ok _ (shared_options unset load f) h (λ o shared h₁.
        >>=-ok _ (load_config load f.client_cert f.client_key) shared (λ client _ h₂.
          >>=-ok _ (load_config load f.server_cert f.server_key) h₂ (λ server _ h₃.
            subst (λ l. All IsServerless l) (ok_injective h₁)
              (start_relays-IsServerless o f.relays (
                subst IsServerless (ok_injective h₃)
                  (set_timeout-IsServerless f.timeout _ refl))))))

  All-member :
      (P : SocketProxyOptions T C F → Type 0) (before after : List (SocketProxyOptions T C F))
      (o : SocketProxyOptions T C F)
      → All P (before ++ (o ∷ after))
      → P o
  All-member P [] after o (h, _) = h
  All-member P (x ∷ before) after o (_, hs) = All-member P before after o hs

-- A chunk for which there is no server goes on as it is.
exchange-serverless :
    (lib : PipeLib) (c : SocketConn) (b : Bytes) (e : Error)
    → c.http_server ≡ []
    → lib.post [] b ≡ err e
    → exchange lib c b ≡ ok b
unfolding exchange
exchange-serverless lib c b e h failed = elim (Bool-cases c.has_http_client) [
  | inl client ↦ rw client (rw h (rw failed refl))
  | inr without ↦ rw without refl
]

process-serverless :
    (lib : PipeLib) (is_local : Bool) (c : SocketConn) (b : Bytes)
    → c.http_server ≡ []
    → ((s : Bytes) → (e : Error) × (lib.post [] s ≡ err e))
    → process lib is_local c b ≡ process lib is_local (record c { has_http_client = false }) b
unfolding process exchange
process-serverless lib is_local c b h fails =
    let sent : (s : Bytes) → exchange lib c s ≡ ok s =
      λ s. let (e, failed) = fails s in exchange-serverless lib c s e h failed in
    λ i.
      apply_dsl lib (if is_local then c.request_match_replace_dsl else c.response_match_replace_dsl)
        b
      >>= λ replaced.
          sent (apply_callback (if is_local then c.on_request else c.on_response) replaced) i

prepared-serverless :
    {T C Listener Remote Url : Type 0} (lib : DialLib C Listener Remote Url)
    (o : SocketProxyOptions T C (Bytes → Bytes)) (p : Prepared Remote Url) (remote : Remote)
    (proxy : Option Url)
    → o.http_server ≡ []
    → Outcome.ok (some (prepare lib o remote proxy)) ≡ ok (some p)
    → p.conn.http_server ≡ []
unfolding prepare
prepared-serverless lib o p remote none h made =
    sym (ap (λ m. elim m [ none ↦ [] | some q ↦ q.conn.http_server ]) (ok_injective made))
prepared-serverless lib o p remote (some url) h made =
    sym (ap (λ m. elim m [ none ↦ [] | some q ↦ q.conn.http_server ]) (ok_injective made)) ∙ h

proxy_conn-serverless :
    {T C Listener Remote Url : Type 0} (lib : DialLib C Listener Remote Url)
    (o : SocketProxyOptions T C (Bytes → Bytes)) (p : Prepared Remote Url)
    → o.http_server ≡ []
    → proxy_conn lib o ≡ ok (some p)
    → p.conn.http_server ≡ []
unfolding proxy_conn
proxy_conn-serverless lib o p h made = elim (Outcome-cases (dial_remote lib o)) [
  | inl (e, failed) ↦
      let gone : proxy_conn lib o ≡ ok none = rw (failed, proxy_conn) refl in
      absurd (ground (arith, sym gone ∙ made))
  | inr (inl panicked) ↦
      let gone : proxy_conn lib o ≡ panic = rw (panicked, proxy_conn) refl in
      absurd (ground (arith, sym gone ∙ made))
  | inr (inr (remote, dialed)) ↦ elim (Bool-cases (is_empty o.http_proxy)) [
    | inl unproxied ↦
        prepared-serverless lib o p remote none h
          (sym (rw (dialed, proxy_conn) (rw unproxied refl)) ∙ made)
    | inr proxied ↦ elim (Outcome-cases (lib.parse_url o.http_proxy)) [
      | inl (e, failed) ↦
          let gone : proxy_conn lib o ≡ ok none =
            rw (dialed, proxy_conn) (rw proxied (rw failed refl)) in
          absurd (ground (arith, sym gone ∙ made))
      | inr (inl panicked) ↦
          let gone : proxy_conn lib o ≡ panic =
            rw (dialed, proxy_conn) (rw proxied (rw panicked refl)) in
          absurd (ground (arith, sym gone ∙ made))
      | inr (inr (url, parsed)) ↦
          prepared-serverless lib o p remote (some url) h
            (sym (rw (dialed, proxy_conn) (rw proxied (rw parsed refl))) ∙ made)
    ]
  ]
]

-- When posting to an empty URL fails: on a connection that is prepared for any of the relays
-- that mitmrelay starts, in either direction, a chunk becomes what it would become without an
-- HTTP client, whatever HTTP proxy the flags name.
pub main_relays-bypass :
    {T C Listener Remote Url : Type 0} (unset : T) (load_key_pair : Bytes → Bytes → Outcome C)
    (dial : DialLib C Listener Remote Url) (lib : PipeLib) (f : RelayFlags)
    (before after : List (SocketProxyOptions T C (Bytes → Bytes)))
    (o : SocketProxyOptions T C (Bytes → Bytes)) (p : Prepared Remote Url) (is_local : Bool)
    (b : Bytes)
    → ((s : Bytes) → (e : Error) × (lib.post [] s ≡ err e))
    → main_relays unset load_key_pair f ≡ ok (before ++ (o ∷ after))
    → proxy_conn dial o ≡ ok (some p)
    → process lib is_local p.conn b
      ≡ process lib is_local (record p.conn { has_http_client = false }) b
main_relays-bypass unset load dial lib f before after o p is_local b fails started made =
    process-serverless lib is_local p.conn b
      (proxy_conn-serverless dial o p
        (All-member IsServerless before after o (main_relays-IsServerless unset load f _ started))
        made)
      fails
