-- ===== src/Runner/Starting.antt =====
-- internal/runner/runner.go: the runner that is made of the options, and what it does before the
-- proxy runs. A fatal message of pkg/certs is a panic, as in Certs.
use proxify.Common.{not, Option, none, some, List, [], ◌∷◌, is_empty, if◌then◌else◌}
use proxify.Go.Outcome.{Outcome, ok, err, panic}
use proxify.Go.Strings.{Bytes, codes}
use proxify.Certs.{CertLib, load_certs, save_to_file}
use proxify.Proxy.Setup.{ProxyOptions, SetupLib, Proxy, new_proxy}
use proxify.Proxy.Serving.{ServeLib, Running, run}
use proxify.Runner.Env.{RunnerOptions, returned, exited, Start}

abbrev pub proxy_options : RunnerOptions → ProxyOptions
proxy_options o = record {
  directory = o.config_dir;
  cert_cache_size = o.cert_cache_size;
  verbosity = o.verbosity;
  listen_addr_http = o.listen_addr_http;
  listen_addr_socks5 = o.listen_addr_socks5;
  output_file = o.output_file;
  output_format = o.output_format;
  output_directory = o.output_directory;
  request_dsl = o.request_dsl;
  response_dsl = o.response_dsl;
  upstream_http_proxies = o.upstream_http_proxies;
  upstream_sock5_proxies = o.upstream_socks5_proxies;
  listen_dns_addr = o.listen_dns_addr;
  dns_mapping_text = o.dns_mapping;
  dns_fallback_resolver = o.dns_fallback_resolver;
  request_match_replace_dsl = o.request_match_replace_dsl;
  response_match_replace_dsl = o.response_match_replace_dsl;
  on_request_callback = none;
  on_response_callback = none;
  dump_request = o.dump_request;
  dump_response = o.dump_response;
  output_jsonl = o.output_jsonl;
  max_size = o.max_size;
  upstream_proxy_requests_number = o.upstream_proxy_requests_number;
  elastic = some o.elastic;
  kafka = some o.kafka;
  allow = o.allow;
  deny = o.deny;
  pass_through = o.pass_through;
}

pub record Runner (W Dns Dialer Rotation Socks : Type 0) : Type 0 where
  pub options : RunnerOptions
  pub proxy : Proxy W Dns Dialer Rotation Socks

-- `validateExpressions`, for one group and for all. `compile` makes an evaluable expression.
unfoldable pub validate_group : (Bytes → Outcome (Unit {0})) → List Bytes → Outcome (Unit {0})
validate_group compile [] = ok tt
validate_group compile (x ∷ xs) = elim (compile x) [
  | panic ↦ panic
  | err e ↦ err e
  | ok done ↦ validate_group compile xs
]

unfoldable pub validate_expressions :
    (Bytes → Outcome (Unit {0})) → List (List Bytes) → Outcome (Unit {0})
validate_expressions compile [] = ok tt
validate_expressions compile (g ∷ gs) = elim (validate_group compile g) [
  | panic ↦ panic
  | err e ↦ err e
  | ok done ↦ validate_expressions compile gs
]

abbrev pub expression_groups : RunnerOptions → List (List Bytes)
expression_groups o =
    o.request_dsl ∷ o.response_dsl ∷ o.request_match_replace_dsl ∷ o.response_match_replace_dsl ∷ []

module _ {W Dns Dialer Rotation Socks C K : Type 0} (certs : CertLib C K)
    (setup : SetupLib W Dns Dialer Rotation Socks) where
  -- The certificate for the flag `-out-ca`, which ends the program when it is saved.
  unfoldable pub save_ca : Bytes → Option C → Start (Runner W Dns Dialer Rotation Socks)
  save_ca filename none d = (returned panic, d)
  save_ca filename (some c) d =
      let (saved, d') = save_to_file certs (codes "CERTIFICATE") (certs.raw c) filename d in
      (elim saved [ panic ↦ returned panic | err e ↦ returned (err e) | ok done ↦ exited 0 ], d')

  -- `NewRunner`
  unfoldable pub new_runner : RunnerOptions → Start (Runner W Dns Dialer Rotation Socks)
  new_runner o d =
      let loaded = load_certs certs o.config_dir d in
      elim loaded.result [
        | panic ↦ (returned panic, loaded.disk)
        | err e ↦ (exited 1, loaded.disk)
        | ok done ↦
            if not (is_empty o.out_ca_file)
            then save_ca o.out_ca_file loaded.cert loaded.disk
            else (
              returned (elim (new_proxy setup (proxy_options o)) [
                | panic ↦ panic
                | err e ↦ err e
                | ok p ↦ ok (record { options = o; proxy = p })
              ]),
              loaded.disk,
            )
      ]

-- `Run` of the runner: the result, and what runs, which is nothing where an expression is refused.
unfoldable pub run_runner :
    {W Dns Dialer Rotation Socks Tunnel : Type 0}
    → (Bytes → Outcome (Unit {0}))
    → ServeLib Tunnel
    → Runner W Dns Dialer Rotation Socks
    → Outcome (Unit {0}) × Option (Running Tunnel)
run_runner compile lib r = elim (validate_expressions compile (expression_groups r.options)) [
  | panic ↦ (panic, none)
  | err e ↦ (err e, none)
  | ok done ↦ let (result, running) = run lib r.proxy in (result, some running)
]
