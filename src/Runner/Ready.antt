-- ===== src/Runner/Ready.antt =====
-- What holds of the options that `ParseOptions` of internal/runner/options.go returns.
use proxify.Common.{
  ◌≡◌, refl, ap, ◌∙◌, ◌↔◌, ◌∷◌, [], true, false, Bool-cases, inl, inr, arith, if◌then◌else◌,
  is_empty,
}
use proxify.Go.Outcome.{ok, err, panic, Outcome-cases}
use proxify.Go.Strings.{Bytes, codes, str_eq}
use proxify.Go.Disk.{Disk, read_file}
use proxify.Types.{silent}
use proxify.Runner.Env.{
  RunnerOptions, Config, Flags, RunnerLib, Ending, returned, exited, Start, on_disk, continue,
}
use proxify.Runner.Flags.{
  create_logger_config_if_not_exists, parse_logger_config, configure_verbosity, set_output,
  finish_options, read_flags, read_exports, parse_options,
}
use proxify.Runner.Outputs.{occurs, replace_text-no_jsonl, replace_text-filled}

-- What the end of a start has before it.
pub continue-returned :
    {A B : Type 0} (f : A → Start B) (r : Ending A × Disk) (b : B) (e : Disk)
    → continue f r ≡ (returned (ok b), e)
    → (a : A) × (d : Disk) × (r ≡ (returned (ok a), d)) × (f a d ≡ (returned (ok b), e))
continue-returned f (returned (ok a), d) b e h = (a, d, refl, h)
continue-returned f (returned (err t), d) b e h = ground (arith, h)
continue-returned f (returned panic, d) b e h = ground (arith, h)
continue-returned f (exited n, d) b e h = ground (arith, h)

-- Options that the runner can start from, with the flags that they come of and the disk that is
-- left.
pub record IsReady (lib : RunnerLib) (f : Flags) (o : RunnerOptions) (d : Disk) : Type 0 where
  pub text : Bytes
  pub config : Config
  pub jsonl : o.output_jsonl ≡ true
  pub named : is_empty o.output_file ≡ false
  pub yaml :
      str_eq o.output_format (codes "yaml") ≡ true → occurs (codes "jsonl") o.output_file ≡ false
  pub running : o.version ≡ false
  pub stored : read_file o.logger_config d ≡ ok text
  pub decoded : lib.decode_config (lib.expand_env text) ≡ ok config
  pub elastic : o.elastic ≡ config.elastic
  pub kafka : o.kafka ≡ config.kafka
  pub alone : f.silent ≡ true → (f.verbose ≡ false) × (f.very_verbose ≡ false)
  pub quiet : (o.verbosity ≡ silent) ↔ (f.silent ≡ true)

module _ (lib : RunnerLib) where
  parse_logger_config-read :
      (o o' : RunnerOptions) (d : Disk)
      → parse_logger_config lib o d ≡ ok o'
      → (text : Bytes) × (config : Config) × (read_file o.logger_config d ≡ ok text)
        × (lib.decode_config (lib.expand_env text) ≡ ok config)
        × (o' ≡ record o { kafka = config.kafka; elastic = config.elastic })
  unfolding parse_logger_config
  parse_logger_config-read o o' d h = elim (Outcome-cases (read_file o.logger_config d)) [
    | inl (e, failed) ↦ absurd (ground (arith, h, failed))
    | inr (inl panicked) ↦ absurd (ground (arith, h, panicked))
    | inr (inr (text, found)) ↦ elim (Outcome-cases (lib.decode_config (lib.expand_env text))) [
      | inl (e, failed) ↦ absurd (ground (arith, h, found, failed))
      | inr (inl panicked) ↦ absurd (ground (arith, h, found, panicked))
      | inr (inr (config, decoded)) ↦
          (text, config, found, decoded, ground (arith, h, found, decoded))
    ]
  ]

  read_exports-returned :
      (o o' : RunnerOptions) (d e : Disk)
      → read_exports lib o d ≡ (returned (ok o'), e)
      → parse_logger_config lib o e ≡ ok o'
  unfolding read_exports
  read_exports-returned o o' d e h =
      let (done, d₁, made, rest) =
        continue-returned _ (on_disk (create_logger_config_if_not_exists lib o) d) o' e h in
      ground (arith, rest)

  file_named :
      (file : Bytes) → is_empty (if is_empty file then codes "proxify_logs.jsonl" else file) ≡ false
  unfolding codes
  file_named [] = refl
  file_named (c ∷ file) = refl

  set_output-IsReady :
      (f : Flags) (o : RunnerOptions) (text : Bytes) (config : Config) (d : Disk)
      → o.version ≡ false
      → (f.silent ≡ true → (f.verbose ≡ false) × (f.very_verbose ≡ false))
      → ((o.verbosity ≡ silent) ↔ (f.silent ≡ true))
      → read_file o.logger_config d ≡ ok text
      → lib.decode_config (lib.expand_env text) ≡ ok config
      → o.elastic ≡ config.elastic
      → o.kafka ≡ config.kafka
      → IsReady lib f (set_output o) d
  unfolding set_output
  set_output-IsReady f o text config d running alone quiet stored decoded he hk =
      let file = if is_empty o.output_file then codes "proxify_logs.jsonl" else o.output_file in
      let named : is_empty (set_output o).output_file ≡ false =
        elim (Bool-cases (str_eq o.output_format (codes "yaml"))) [
          | inl h ↦ rw h (replace_text-filled file (file_named o.output_file))
          | inr h ↦ rw h (file_named o.output_file)
        ] in
      record {
        text = text;
        config = config;
        jsonl = refl;
        named = named;
        yaml = λ h. rw h (replace_text-no_jsonl file);
        running = running;
        stored = stored;
        decoded = decoded;
        elastic = he;
        kafka = hk;
        alone = alone;
        quiet = quiet;
      }

  configure_verbosity-keeps :
      (f : Flags) (o o' : RunnerOptions) (d e : Disk)
      → configure_verbosity f o d ≡ (returned (ok o'), e)
      → (o'.logger_config ≡ o.logger_config)
        × (o'.elastic ≡ o.elastic)
        × (o'.kafka ≡ o.kafka)
        × (e ≡ d)
        × (f.silent ≡ true → (f.verbose ≡ false) × (f.very_verbose ≡ false))
        × ((o'.verbosity ≡ silent) ↔ (f.silent ≡ true))
  unfolding configure_verbosity
  configure_verbosity-keeps f o o' d e h = ground (arith, h)

  finish_options-returned :
      (o o' : RunnerOptions) (d e : Disk)
      → finish_options o d ≡ (returned (ok o'), e)
      → (o.version ≡ false) × (o' ≡ set_output o) × (e ≡ d)
  unfolding finish_options
  finish_options-returned o o' d e h = ground (arith, h)

  -- Whenever `ParseOptions` returns options: the output file has a name, in which "jsonl" does
  -- not occur if the format is "yaml", the elastic and kafka options are those of the export
  -- configuration that is on the disk, the version was not asked for, and, of the flags that
  -- were read, silent was not set together with a verbose one, and the verbosity is silent
  -- exactly when it was set.
  pub parse_options-IsReady :
      (d e : Disk) (o : RunnerOptions)
      → parse_options lib d ≡ (returned (ok o), e)
      → (f : Flags) × (d' : Disk) × (read_flags lib d ≡ (returned (ok f), d')) × IsReady lib f o e
  unfolding parse_options
  parse_options-IsReady d e o h =
      let (given, d₁, read, h₁) = continue-returned _ (read_flags lib d) o e h in
      let (exporting, d₂, exported, h₂) =
        continue-returned _ (read_exports lib given.options d₁) o e h₁ in
      let (ready, d₃, configured, h₃) =
        continue-returned _ (configure_verbosity given exporting d₂) o e h₂ in
      let (text, config, stored, decoded, made) =
        parse_logger_config-read given.options exporting d₂
          (read_exports-returned given.options exporting d₁ d₂ exported) in
      let (path, elastic, kafka, same, alone, quiet) =
        configure_verbosity-keeps given exporting ready d₂ d₃ configured in
      let (running, last, same') = finish_options-returned ready o d₃ e h₃ in
      let there : read_file ready.logger_config e ≡ ok text = rw (path, same', same, made) stored in
      (
        given,
        d₁,
        read,
        rw last (
            set_output-IsReady given ready text config e running alone quiet there decoded
              (elastic ∙ ap (λ (r : RunnerOptions). r.elastic) made)
              (kafka ∙ ap (λ (r : RunnerOptions). r.kafka) made)),
      )
