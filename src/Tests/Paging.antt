-- ===== src/Tests/Paging.antt =====
-- Tests of the built-in pages of proxy.go.
use proxify.Common.{ℕ, ◌≡◌, refl, none, some, Option}
use proxify.Go.Outcome.{Outcome, ok, err}
use proxify.Go.Strings.{codes, str_eq}
use proxify.Go.Http.{Request, Response}
use proxify.Proxy.Pages.{PageLib, internal_error, serve_cacert, serve_page, hijack_n_serve}
use proxify.Tests.Certifying.{cert_lib}
use proxify.Tests.Fixtures.{page, question}

abbrev pages : PageLib
pages = record { hijack = λ _. ok tt; serve_static = λ _. internal_error }

abbrev refused : PageLib
refused = record pages { hijack = λ _. err (codes "refused") }

abbrev cacert : Request
cacert = record question { url = record page { path = codes "/cacert" } }

abbrev statuses : Outcome (Unit {0}) × Option Response → Option ℕ
statuses (ended, none) = none
statuses (ended, some sent) = some sent.status_code

cacert_sent : statuses (hijack_n_serve cert_lib (codes "c") pages cacert) ≡ some 200
unfolding hijack_n_serve serve_page serve_cacert str_eq codes
cacert_sent = refl

page_sent : statuses (hijack_n_serve cert_lib (codes "c") pages question) ≡ some 500
unfolding hijack_n_serve serve_page str_eq internal_error codes
page_sent = refl

refused_closed : hijack_n_serve cert_lib (codes "c") refused cacert ≡ (err (codes "refused"), none)
unfolding hijack_n_serve
refused_closed = refl
