-- ===== src/Proxy/Modify/Redirects.antt =====
-- When a response of proxy.go closes its connection.
use proxify.Common.{
  ◌≡◌, ◌↔◌, true, false, some, arith, Bool-cases, Option-cases, inl, inr, ◌||◌, ◌==◌, ◌⊎◌,
}
use proxify.Go.Outcome.{ok, Outcome-cases}
use proxify.Go.Strings.{Bytes, str_eq}
use proxify.Go.Strings.Equality.{str_eq_iff}
use proxify.Go.Http.{Request, Response}
use proxify.Proxy.Env.{ProxyLib}
use proxify.Proxy.Modify.{close_redirect}

-- The location of a redirect is known, and it is the host of the request.
abbrev pub StaysOnHost : ProxyLib → Response → Type 0
StaysOnHost lib resp =
    (host : Bytes) × (req : Request) × (lib.http.location_host resp ≡ ok host)
    × (resp.request ≡ some req)
    × (host ≡ req.host)

abbrev pub IsRedirect : Response → Type 0
IsRedirect resp = (resp.status_code ≡ 301) ⊎ (resp.status_code ≡ 302)

-- For a response that is not to be closed already, and on which the end of `ModifyResponse`
-- succeeds: it is closed exactly when it has the status 301 or 302 and its location is not
-- known to be on the host of its request.
pub close_redirect_iff :
    (lib : ProxyLib) (resp r : Response)
    → close_redirect lib resp ≡ ok r
    → resp.close ≡ false
    → (r.close ≡ true) ↔ (IsRedirect resp × (¬ StaysOnHost lib resp))
unfolding close_redirect
close_redirect_iff lib resp r h hc =
    elim (Bool-cases (resp.status_code == 301 || resp.status_code == 302)) [
      | inr plain ↦ (λ e. absurd (ground arith), λ w. absurd (ground arith))
      | inl moved ↦ elim (Outcome-cases (lib.http.location_host resp)) [
        | inl (e, failed) ↦ (λ _. (ground arith, λ stays. cc), λ _. ground arith)
        | inr (inl failed) ↦ absurd (ground arith)
        | inr (inr (host, found)) ↦ elim (Option-cases resp.request) [
          | inl missing ↦ absurd (ground arith)
          | inr (req, asked_for) ↦ elim (Bool-cases (str_eq host req.host)) [
            | inl same ↦
                let stays : StaysOnHost lib resp =
                  (host, req, found, asked_for, (str_eq_iff host req.host).0 same) in
                (λ e. absurd (ground arith), λ w. absurd (w.1 stays))
            | inr other ↦ (
              λ _. (ground arith, λ stays. ground (arith, str_eq_iff host req.host)),
              λ _. ground arith,
            )
          ]
        ]
      ]
    ]
