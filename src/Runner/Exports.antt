-- ===== src/Runner/Exports.antt =====
-- The export configuration of internal/runner/options.go: the file that is made where there is none,
-- and what is read from it.
use proxify.Common.{◌≡◌, ◌≢◌, refl, sym, true, false, none, some, [], arith, if◌then◌else◌}
use proxify.Go.Outcome.{ok}
use proxify.Go.Strings.{Bytes, str_eq}
use proxify.Go.Strings.Equality.{str_eq_refl, str_eq_of_ne}
use proxify.Go.Maps.{lookup, insert, lookup-insert}
use proxify.Go.Disk.{Disk, file_exists, read_file, create, append_file, contents}
use proxify.Runner.Env.{RunnerOptions, Config, RunnerLib}
use proxify.Runner.Flags.{
  no_elastic, no_kafka, create_logger_config_if_not_exists, parse_logger_config,
}

abbrev pub no_exports : Config
no_exports = record { elastic = no_elastic; kafka = no_kafka }

module _ (lib : RunnerLib) where
  -- The disk with a new file.
  abbrev with_file : Bytes → Bytes → Disk → Disk
  with_file path text d = record d { files = insert path text (insert path [] d.files) }

  create-new :
      (path : Bytes) (d : Disk)
      → d.refuses path ≡ none
      → create path d ≡ (ok tt, record d { files = insert path [] d.files })
  unfolding create
  create-new path d h = rw (h, create) refl

  create_logger_config_if_not_exists-new :
      (o : RunnerOptions) (text : Bytes) (d : Disk)
      → file_exists o.logger_config d ≡ false
      → d.refuses o.logger_config ≡ none
      → d.breaks o.logger_config ≡ none
      → lib.encode_config no_exports ≡ ok text
      → create_logger_config_if_not_exists lib o d ≡ (ok tt, with_file o.logger_config text d)
  unfolding create_logger_config_if_not_exists append_file
  create_logger_config_if_not_exists-new o text d missing open_ sound encoded =
      let empty : contents o.logger_config (record d { files = insert o.logger_config [] d.files })
          ≡ [] =
        unfold contents in rw (lookup-insert, str_eq_refl) refl in
      rw (missing, create_logger_config_if_not_exists)
        (rw (create-new o.logger_config d open_) (
          rw encoded
            (rw sound (rw (create-new o.logger_config d open_) (rw (empty, append_file) refl)))))

  create_logger_config_if_not_exists-there :
      (o : RunnerOptions) (d : Disk)
      → file_exists o.logger_config d ≡ true
      → create_logger_config_if_not_exists lib o d ≡ (ok tt, d)
  unfolding create_logger_config_if_not_exists
  create_logger_config_if_not_exists-there o d there =
      rw (there, create_logger_config_if_not_exists) refl

  lookup-with_file :
      (path other text : Bytes) (d : Disk)
      → lookup other (with_file path text d).files
        ≡ (if str_eq path other then some text else lookup other d.files)
  lookup-with_file path other text d = ground (
    arith,
    lookup-insert path other text (insert path [] d.files),
    lookup-insert path other [] d.files,
  )

  parse_logger_config-stored :
      (o : RunnerOptions) (text : Bytes) (config : Config) (d : Disk)
      → d.refuses o.logger_config ≡ none
      → lookup o.logger_config d.files ≡ some text
      → lib.decode_config (lib.expand_env text) ≡ ok config
      → parse_logger_config lib o d
        ≡ ok (record o { kafka = config.kafka; elastic = config.elastic })
  unfolding parse_logger_config read_file
  parse_logger_config-stored o text config d open_ stored decoded =
      rw (open_, parse_logger_config, read_file) (rw stored (rw decoded refl))

  -- Where the export configuration is missing, can be written, and empty exports are encoded to
  -- a text that is decoded back: it is made, reading it gives empty kafka and elastic options
  -- and leaves the others, making it once more changes nothing, and no other file changes.
  pub export_config-made :
      (o : RunnerOptions) (text : Bytes) (d : Disk)
      → file_exists o.logger_config d ≡ false
      → d.refuses o.logger_config ≡ none
      → d.breaks o.logger_config ≡ none
      → lib.encode_config no_exports ≡ ok text
      → lib.decode_config (lib.expand_env text) ≡ ok no_exports
      → let (made, d') = create_logger_config_if_not_exists lib o d in
        (made ≡ ok tt)
        × (parse_logger_config lib o d' ≡ ok (record o { kafka = no_kafka; elastic = no_elastic }))
        × (create_logger_config_if_not_exists lib o d' ≡ (ok tt, d'))
        × ((path : Bytes) → path ≢ o.logger_config → lookup path d'.files ≡ lookup path d.files)
  export_config-made o text d missing open_ sound encoded decoded =
      let stored : lookup o.logger_config (with_file o.logger_config text d).files ≡ some text =
        rw (lookup-with_file, str_eq_refl) refl in
      rw (create_logger_config_if_not_exists-new o text d missing open_ sound encoded) (
        refl,
        parse_logger_config-stored o text no_exports _ open_ stored decoded,
        create_logger_config_if_not_exists-there o _
            (unfold file_exists in rw (stored, file_exists) refl),
        λ path other.
            rw (lookup-with_file, str_eq_of_ne o.logger_config path (λ e. other (sym e))) refl,
      )
