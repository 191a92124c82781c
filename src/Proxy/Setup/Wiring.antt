-- ===== src/Proxy/Setup/Wiring.antt =====
-- What holds of a proxy that `NewProxy` of proxy.go has made: each way out has what it needs.
use proxify.Common.{
  ◌≡◌, ◌≢◌, ℤ, refl, sym, ap, subst, true, false, Option, some, List, [], ◌∷◌, arith, All, is_empty,
  Bool-cases, inl, inr,
}
use proxify.Go.Outcome.{ok, >>=-IsOk, >>=-ok, ok_injective}
use proxify.Go.Strings.{Bytes, str_eq}
use proxify.Go.Strings.Equality.{str_eq_iff, str_eq_refl}
use proxify.Go.Maps.{Map, lookup, insert, lookup-insert}
use proxify.Logger.Setup.{new_logger}
use proxify.Logger.Setup.Tolerance.{new_logger-options}
use proxify.Proxy.Setup.{
  ProxyOptions, SetupLib, direct, http_proxies, socks5_proxies, Transport, Proxy, logger_options,
  dns_options, socks5_dialers, get_round_tripper, new_dns, dialer_options, new_rotation, new_proxy,
}

is_empty-eq : (ps : List Bytes) → is_empty ps ≡ true → ps ≡ []
is_empty-eq [] h = refl
is_empty-eq (p ∷ ps) h = cc

module _ {W Dns Dialer Rotation Socks : Type 0} (lib : SetupLib W Dns Dialer Rotation Socks) where
  -- There is a dialer for a SOCKS5 proxy, and it is its own.
  abbrev pub HasDialer : Map Socks → Bytes → Type 0
  HasDialer m p = (s : Socks) × (lookup p m ≡ some s) × (lib.new_socks5 p ≡ ok s)

  insert-HasDialer :
      (p k : Bytes) (s : Socks) (m : Map Socks)
      → lib.new_socks5 p ≡ ok s
      → HasDialer m k
      → HasDialer (insert p s m) k
  insert-HasDialer p k s m made (old, found, own) = elim (Bool-cases (str_eq p k)) [
    | inl e ↦ (s, rw (lookup-insert, e) refl, rw (← (str_eq_iff p k).0 e) made)
    | inr e ↦ (old, rw (lookup-insert, e) found, own)
  ]

  insert-HasDialer_own :
      (p : Bytes) (s : Socks) (m : Map Socks) → lib.new_socks5 p ≡ ok s → HasDialer (insert p s m) p
  insert-HasDialer_own p s m made = (s, rw (lookup-insert, str_eq_refl) refl, made)

  socks5_dialers-keeps :
      (ps : List Bytes) (m m' : Map Socks) (k : Bytes)
      → socks5_dialers lib ps m ≡ ok m'
      → HasDialer m k
      → HasDialer m' k
  unfolding socks5_dialers
  socks5_dialers-keeps [] m m' k h d = subst (λ t. HasDialer t k) (ok_injective h) d
  socks5_dialers-keeps (p ∷ ps) m m' k h d =
      let (s, rest, made) = >>=-IsOk _ (lib.new_socks5 p) h in
      socks5_dialers-keeps ps (insert p s m) m' k rest (insert-HasDialer p k s m made d)

  socks5_dialers-All :
      (ps : List Bytes) (m m' : Map Socks) → socks5_dialers lib ps m ≡ ok m' → All (HasDialer m') ps
  unfolding socks5_dialers
  socks5_dialers-All [] m m' h = tt
  socks5_dialers-All (p ∷ ps) m m' h =
      let (s, rest, made) = >>=-IsOk _ (lib.new_socks5 p) h in
      (
        socks5_dialers-keeps ps (insert p s m) m' p rest (insert-HasDialer_own p s m made),
        socks5_dialers-All ps (insert p s m) m' rest,
      )

  -- How the requests of a proxy leave, by the upstream proxies of its options.
  pub data IsRouted (o : ProxyOptions) (p : Proxy W Dns Dialer Rotation Socks) : Type 0 where
    alone :
        o.upstream_http_proxies ≡ []
        → o.upstream_sock5_proxies ≡ []
        → p.transport.route ≡ direct
        → IsRouted o p
    through_http :
        (r : Rotation)
        → o.upstream_http_proxies ≢ []
        → p.transport.route ≡ http_proxies
        → p.rbhttp ≡ some r
        → lib.new_round_transport o.upstream_proxy_requests_number o.upstream_http_proxies ≡ ok r
        → IsRouted o p
    through_socks5 :
        (r : Rotation) (m : Map Socks)
        → o.upstream_http_proxies ≡ []
        → o.upstream_sock5_proxies ≢ []
        → p.transport.route ≡ socks5_proxies m
        → All (HasDialer m) o.upstream_sock5_proxies
        → p.rbsocks5 ≡ some r
        → lib.new_round_transport o.upstream_proxy_requests_number o.upstream_sock5_proxies ≡ ok r
        → IsRouted o p

  pub record IsWired (o : ProxyOptions) (p : Proxy W Dns Dialer Rotation Socks) : Type 0 where
    pub options : p.options ≡ o
    pub logs : p.logger.options ≡ logger_options o
    pub dials : lib.new_dialer (dialer_options lib o) ≡ ok p.dialer
    pub resolves :
        is_empty o.listen_dns_addr ≡ false
        → (dns : Dns) × (p.tinydns ≡ some dns) × (lib.new_tinydns (dns_options o) ≡ ok dns)
    pub routed : IsRouted o p

  new_rotation-made :
      (n : ℤ) (ps : List Bytes) (r : Option Rotation)
      → new_rotation lib n ps ≡ ok r
      → ps ≢ []
      → (x : Rotation) × (r ≡ some x) × (lib.new_round_transport n ps ≡ ok x)
  unfolding new_rotation
  new_rotation-made n [] r h ne = absurd (ne refl)
  new_rotation-made n (p ∷ ps) r h ne =
      let (x, same, made) = >>=-IsOk _ (lib.new_round_transport n (p ∷ ps)) h in
      (x, ground (arith, same), made)

  new_dns-made :
      (o : ProxyOptions) (r : Option Dns)
      → new_dns lib o ≡ ok r
      → is_empty o.listen_dns_addr ≡ false
      → (dns : Dns) × (r ≡ some dns) × (lib.new_tinydns (dns_options o) ≡ ok dns)
  unfolding new_dns
  new_dns-made o r h asked =
      let called = rw asked at h in
      let (dns, same, made) = >>=-IsOk _ (lib.new_tinydns (dns_options o)) called in
      (dns, ground (arith, same), made)

  get_round_tripper-IsRouted :
      (o : ProxyOptions) (p : Proxy W Dns Dialer Rotation Socks)
      → get_round_tripper lib o ≡ ok p.transport
      → new_rotation lib o.upstream_proxy_requests_number o.upstream_http_proxies ≡ ok p.rbhttp
      → new_rotation lib o.upstream_proxy_requests_number o.upstream_sock5_proxies ≡ ok p.rbsocks5
      → IsRouted o p
  unfolding get_round_tripper
  get_round_tripper-IsRouted o p h http socks =
      elim (Bool-cases (is_empty o.upstream_http_proxies)) [
        | inr many ↦
            let some_http : o.upstream_http_proxies ≢ [] =
              λ e. ground (arith, many, ap (λ (l : List Bytes). is_empty l) e) in
            let (r, held, made) =
              new_rotation-made o.upstream_proxy_requests_number o.upstream_http_proxies p.rbhttp
                http some_http in
            through_http r some_http
              (ap (λ (t : Transport Socks). t.route) (sym (ok_injective (rw many at h)))) held made
        | inl no_http ↦ elim (Bool-cases (is_empty o.upstream_sock5_proxies)) [
          | inl no_socks ↦ alone (is_empty-eq _ no_http) (is_empty-eq _ no_socks) (
              ap (λ (t : Transport Socks). t.route)
                (sym (ok_injective (rw (no_http, no_socks) at h))))
          | inr many ↦
              let some_socks : o.upstream_sock5_proxies ≢ [] =
                λ e. ground (arith, many, ap (λ (l : List Bytes). is_empty l) e) in
              let (r, held, made) =
                new_rotation-made o.upstream_proxy_requests_number o.upstream_sock5_proxies
                  p.rbsocks5 socks some_socks in
              >>=-ok _ (socks5_dialers lib o.upstream_sock5_proxies []) (rw (no_http, many) at h)
                (λ m all t.
                  through_socks5 r m (is_empty-eq _ no_http) some_socks
                    (ap (λ (t : Transport Socks). t.route) (sym (ok_injective t)))
                    (socks5_dialers-All o.upstream_sock5_proxies [] m all) held made)
        ]
      ]

  -- Whenever `NewProxy` gives a proxy: it and its logger have the options, its dialer and DNS
  -- server were made from them, and its requests leave directly if there is no upstream proxy,
  -- through the rotation over the upstream HTTP proxies if there are any, and otherwise through
  -- a rotation over the upstream SOCKS5 proxies, each of which has a dialer of its own.
  pub new_proxy-IsWired :
      (o : ProxyOptions) (p : Proxy W Dns Dialer Rotation Socks)
      → new_proxy lib o ≡ ok p
      → IsWired o p
  unfolding new_proxy
  new_proxy-IsWired o p h =
      >>=-ok _ (new_logger lib.constructors (logger_options o)) h (λ logger logged h₁.
        >>=-ok _ (new_dns lib o) h₁ (λ dns resolved h₂.
          >>=-ok _ (lib.new_dialer (dialer_options lib o)) h₂ (λ dialer dialed h₃.
            >>=-ok _ (new_rotation lib o.upstream_proxy_requests_number o.upstream_http_proxies) h₃
              (λ rbhttp http h₄.
                >>=-ok _
                  (new_rotation lib o.upstream_proxy_requests_number o.upstream_sock5_proxies) h₄
                  (λ rbsocks5 socks h₅. >>=-ok _ lib.getwd h₅ (λ cwd here h₆.
                    >>=-ok _ (get_round_tripper lib o) h₆ (λ transport tripped h₇.
                      subst (λ q. IsWired o q) (ok_injective h₇)
                        (record {
                          options = refl;
                          logs =
                              new_logger-options lib.constructors (logger_options o) logger logged;
                          dials = dialed;
                          resolves = new_dns-made o dns resolved;
                          routed = get_round_tripper-IsRouted o _ tripped http socks;
                        }))))))))
