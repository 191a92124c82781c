-- ===== src/Proxy/Pages.antt =====
-- The built-in pages of proxy.go: `hijackNServe`, and the handlers of `getProxifyServerMux`. They are
-- only served into a recorder, to which writing does not fail.
use proxify.Common.{negsuc, true, false, Option, none, some, [], ◌∷◌, if◌then◌else◌}
use proxify.Go.Outcome.{Outcome, ok, err, panic}
use proxify.Go.Strings.{codes, str_eq}
use proxify.Go.Http.{Request, Response, buffer}
use proxify.Certs.{CertLib}

-- `Session().Hijack`, and the file server of the folder with the pages.
pub record PageLib : Type 0 where
  pub hijack : Request → Outcome (Unit {0})
  pub serve_static : Request → Response

-- `http.Error` with the status 500.
unfoldable pub internal_error : Response
internal_error = record {
  status_code = 500;
  header = some (
      (codes "Content-Type", codes "text/plain; charset=utf-8" ∷ [])
      ∷ (codes "X-Content-Type-Options", codes "nosniff" ∷ [])
      ∷ []);
  body = some (buffer (codes "Internal Server Error\n"));
  content_length = negsuc 0;
  close = false;
  request = none;
}

module _ {C K : Type 0} (certs : CertLib C K) (cert : C) (lib : PageLib) where
  -- The handler of `/cacert`, with `GetRawCA`.
  unfoldable pub serve_cacert : Outcome Response
  serve_cacert = elim (certs.encode_pem (codes "CERTIFICATE") (certs.raw cert)) [
    | panic ↦ panic
    | err e ↦ ok internal_error
    | ok pem ↦ ok (record internal_error {
      status_code = 200;
      header = some (
          (codes "Content-Type", codes "application/octet-stream" ∷ [])
          ∷ (codes "Content-Disposition", codes "attachment; filename=\"proxify.pem\"" ∷ [])
          ∷ []);
      body = some (buffer pem);
    })
  ]

  -- The mux, for a path that it does not redirect.
  unfoldable pub serve_page : Request → Outcome Response
  serve_page req =
      if str_eq req.url.path (codes "/cacert") then serve_cacert else ok (lib.serve_static req)

  -- `hijackNServe`: its result, and the response that is written to the connection, which is closed
  -- behind it. A failure to write is only printed.
  unfoldable pub hijack_n_serve : Request → Outcome (Unit {0}) × Option Response
  hijack_n_serve req = elim (lib.hijack req) [
    | panic ↦ (panic, none)
    | err e ↦ (err e, none)
    | ok done ↦ elim (serve_page req) [
      | panic ↦ (panic, none)
      | err e ↦ (err e, none)
      | ok page ↦ (ok tt, some (record page { close = true }))
    ]
  ]
