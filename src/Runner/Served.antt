-- ===== src/Runner/Served.antt =====
-- What holds when proxify serves: the way from `main` of cmd/proxify/proxify.go through
-- internal/runner to `NewProxy` and `Run` of proxy.go.
use proxify.Common.{
  ◌≡◌, ◌≢◌, refl, sym, ap, ◌∙◌, true, Bool-cases, Option, none, some, List, [], ◌∷◌, ◌++◌, arith,
  All, inl, inr, is_empty,
}
use proxify.Go.Outcome.{Outcome, Error, ok, err, panic, Outcome-cases}
use proxify.Go.Strings.{Bytes}
use proxify.Go.Disk.{Disk}
use proxify.Certs.{CertLib, load_certs}
use proxify.Proxy.Setup.{SetupLib, Proxy, new_proxy}
use proxify.Proxy.Setup.Wiring.{IsWired, new_proxy-IsWired}
use proxify.Proxy.Serving.{ServeLib, Running, run}
use proxify.Runner.Env.{RunnerOptions, Flags, RunnerLib, Ending, returned, exited}
use proxify.Runner.Flags.{parse_options, read_flags}
use proxify.Runner.Ready.{IsReady, parse_options-IsReady, continue-returned}
use proxify.Runner.Starting.{
  Runner, proxy_options, save_ca, new_runner, validate_group, validate_expressions,
  expression_groups, run_runner,
}
use proxify.Runner.Main.{Standing, serving, standing, standing_of, main}

module _ (compile : Bytes → Outcome (Unit {0})) where
  abbrev pub Compiles : Bytes → Type 0
  Compiles x = compile x ≡ ok tt

  abbrev pub concat : List (List Bytes) → List Bytes
  concat [] = []
  concat (g ∷ gs) = g ++ concat gs

  validate_group-append :
      (xs ys : List Bytes)
      → validate_group compile (xs ++ ys) ≡ (elim (validate_group compile xs) [
        | panic ↦ panic
        | err e ↦ err e
        | ok done ↦ validate_group compile ys
      ])
  unfolding validate_group
  validate_group-append [] ys = refl
  validate_group-append (x ∷ xs) ys = ground (arith, validate_group-append xs ys)

  validate_group-accepts : (xs : List Bytes) → All Compiles xs → validate_group compile xs ≡ ok tt
  unfolding validate_group
  validate_group-accepts [] _ = refl
  validate_group-accepts (x ∷ xs) (h, hs) = rw (h, validate_group) (validate_group-accepts xs hs)

  validate_group-All : (xs : List Bytes) → validate_group compile xs ≡ ok tt → All Compiles xs
  unfolding validate_group
  validate_group-All [] h = tt
  validate_group-All (x ∷ xs) h = elim (Outcome-cases (compile x)) [
    | inl (e, failed) ↦ absurd (ground (arith, h, failed))
    | inr (inl panicked) ↦ absurd (ground (arith, h, panicked))
    | inr (inr (done, compiled)) ↦ (compiled, validate_group-All xs (ground (arith, h, compiled)))
  ]

  -- The groups are validated like one.
  validate_expressions-concat :
      (gs : List (List Bytes))
      → validate_expressions compile gs ≡ validate_group compile (concat gs)
  unfolding validate_expressions
  validate_expressions-concat [] = unfold validate_group in refl
  validate_expressions-concat (g ∷ gs) =
      ground (arith, validate_group-append g (concat gs), validate_expressions-concat gs)

  -- If all expressions before the first bad one compile, in the order of the request filters,
  -- the response filters, and the match-replace expressions of requests and of responses, the
  -- runner gives the error of that one and starts nothing.
  pub run_runner-refuses :
      {W Dns Dialer Rotation Socks Tunnel : Type 0} (lib : ServeLib Tunnel)
      (r : Runner W Dns Dialer Rotation Socks) (x : Bytes) (e : Error) (before after : List Bytes)
      → concat (expression_groups r.options) ≡ before ++ (x ∷ after)
      → All Compiles before
      → compile x ≡ err e
      → run_runner compile lib r ≡ (err e, none)
  unfolding run_runner
  run_runner-refuses lib r x e before after split good bad =
      let refused : validate_expressions compile (expression_groups r.options) ≡ err e =
        rw
          (
            validate_expressions-concat,
            split,
            validate_group-append,
            validate_group-accepts before good,
          )
          (unfold validate_group in rw (bad, validate_group) refl) in
      rw (refused, run_runner) refl

  run_runner-runs :
      {W Dns Dialer Rotation Socks Tunnel : Type 0} (lib : ServeLib Tunnel)
      (r : Runner W Dns Dialer Rotation Socks) (running : Running Tunnel)
      → run_runner compile lib r ≡ (ok tt, some running)
      → All Compiles (concat (expression_groups r.options)) × (run lib r.proxy ≡ (ok tt, running))
  unfolding run_runner
  run_runner-runs lib r running h =
      elim (Outcome-cases (validate_expressions compile (expression_groups r.options))) [
        | inl (e, failed) ↦ absurd (ground (arith, h, failed))
        | inr (inl panicked) ↦ absurd (ground (arith, h, panicked))
        | inr (inr (done, valid)) ↦ (
          validate_group-All _ (sym (validate_expressions-concat _) ∙ valid),
          ground (arith, h, valid),
        )
      ]

module _ {W Dns Dialer Rotation Socks C K Tunnel : Type 0} (lib : RunnerLib) (certs : CertLib C K)
    (setup : SetupLib W Dns Dialer Rotation Socks) (compile : Bytes → Outcome (Unit {0}))
    (serve : ServeLib Tunnel) where
  save_ca-ends :
      (filename : Bytes) (c : Option C) (d e : Disk) (r : Runner W Dns Dialer Rotation Socks)
      → save_ca certs setup filename c d ≢ (returned (ok r), e)
  unfolding save_ca
  save_ca-ends filename none d e r h = ground (arith, h)
  save_ca-ends filename (some c) d e r h = ground (arith, h)

  new_runner-made :
      (o : RunnerOptions) (r : Runner W Dns Dialer Rotation Socks) (d e : Disk)
      → new_runner certs setup o d ≡ (returned (ok r), e)
      → (is_empty o.out_ca_file ≡ true)
        × (new_proxy setup (proxy_options o) ≡ ok r.proxy)
        × (r.options ≡ o)
  unfolding new_runner
  new_runner-made o r d e h = elim (Outcome-cases (load_certs certs o.config_dir d).result) [
    | inl (t, failed) ↦ absurd (ground (arith, h, failed))
    | inr (inl panicked) ↦ absurd (ground (arith, h, panicked))
    | inr (inr (done, loaded)) ↦ elim (Bool-cases (is_empty o.out_ca_file)) [
      | inr asked ↦ absurd (
          ground (
            arith,
            h,
            loaded,
            asked,
            save_ca-ends o.out_ca_file (load_certs certs o.config_dir d).cert
                (load_certs certs o.config_dir d).disk e r,
          ))
      | inl unasked ↦ elim (Outcome-cases (new_proxy setup (proxy_options o))) [
        | inl (t, failed) ↦ absurd (ground (arith, h, loaded, unasked, failed))
        | inr (inl panicked) ↦ absurd (ground (arith, h, loaded, unasked, panicked))
        | inr (inr (p, made)) ↦
            let same : r ≡ record { options = o; proxy = p } =
              ground (arith, h, loaded, unasked, made) in
            (unasked, rw same made, ap (λ (q : Runner W Dns Dialer Rotation Socks). q.options) same)
      ]
    ]
  ]

  standing-serving :
      (m : Outcome (Unit {0}) × Option (Running Tunnel)) (running : Running Tunnel)
      → standing m ≡ serving running
      → m ≡ (ok tt, some running)
  unfolding standing
  standing-serving (ok done, some running') running h = ground (arith, h)
  standing-serving (ok done, none) running h = ground (arith, h)
  standing-serving (err e, m) running h = ground (arith, h)
  standing-serving (panic, m) running h = ground (arith, h)

  -- What the first half of `main` gives the second.
  started-serving :
      (m : Ending (Runner W Dns Dialer Rotation Socks) × Disk) (running : Running Tunnel) (e : Disk)
      → standing_of compile serve m ≡ (serving running, e)
      → (r : Runner W Dns Dialer Rotation Socks) × (m ≡ (returned (ok r), e))
        × (run_runner compile serve r ≡ (ok tt, some running))
  unfolding standing_of
  started-serving (returned (ok r), d) running e h = (
    r,
    ap (λ (m : Standing Tunnel × Disk). (returned (ok r), m.1)) h,
    standing-serving (run_runner compile serve r) running
        (ap (λ (m : Standing Tunnel × Disk). m.0) h),
  )
  started-serving (returned (err t), d) running e h = ground (arith, h)
  started-serving (returned panic, d) running e h = ground (arith, h)
  started-serving (exited n, d) running e h = ground (arith, h)

  -- What a proxify that serves has behind it.
  pub record IsServed (o : RunnerOptions) (f : Flags) (d : Disk) (running : Running Tunnel)
      : Type 1 where
    pub proxy : Proxy W Dns Dialer Rotation Socks
    pub ready : IsReady lib f o d
    pub no_ca : is_empty o.out_ca_file ≡ true
    pub wired : IsWired setup (proxy_options o) proxy
    pub compiled : All (Compiles compile) (concat compile (expression_groups o))
    pub runs : run serve proxy ≡ (ok tt, running)

  -- If `main` comes to serve, then the options that `ParseOptions` returned on the disk are
  -- ready, no CA file was asked for, the proxy was made with what its options ask for, every
  -- filter and match-replace expression of the options compiles, and what runs is what `Run` of
  -- that proxy started.
  pub main-IsServed :
      (d e : Disk) (running : Running Tunnel)
      → main lib certs setup compile serve d ≡ (serving running, e)
      → (o : RunnerOptions) × (f : Flags) × (d₀ d' : Disk) × (read_flags lib d
          ≡ (returned (ok f), d₀))
        × (parse_options lib d ≡ (returned (ok o), d'))
        × IsServed o f d' running
  unfolding main
  main-IsServed d e running h =
      let (r, started, ran) = started-serving _ running e h in
      let (o, d', parsed, made) =
        continue-returned (new_runner certs setup) (parse_options lib d) r e started in
      let (unasked, wired, same) = new_runner-made o r d' e made in
      let (f, d₀, read, ready) = parse_options-IsReady lib d d' o parsed in
      let (compiled, runs) = run_runner-runs compile serve r running ran in
      (
        o,
        f,
        d₀,
        d',
        read,
        parsed,
        record {
          proxy = r.proxy;
          ready = ready;
          no_ca = unasked;
          wired = new_proxy-IsWired setup (proxy_options o) r.proxy wired;
          compiled = rw (← same) compiled;
          runs = runs;
        },
      )
