-- ===== src/Replay/Names.antt =====
-- What cmd/replay/replay.go recovers from the file names that pkg/logger/logger.go chooses.
use proxify.Common.{
  ◌≡◌, ◌≢◌, refl, sym, ap, ◌∙◌, List, [], ◌∷◌, ◌++◌, arith, append_assoc, inl, inr, ◌⊎◌,
}
use proxify.Go.Strings.{Bytes, codes, split, join, replace_all}
use proxify.Go.Strings.Splitting.{Lacks, split_lacking}
use proxify.Go.Strings.Parts.{split-append_last, split-append_lacking, join-split_nothing}
use proxify.Go.Strings.Affixes.{trim_suffix-append, trim_suffix_other}
use proxify.Types.{HttpTransaction}
use proxify.Logger.Env.{OptionsLogger}
use proxify.Logger.Storing.{store_name}
use proxify.Replay.{all_but_last, last_token, first_token, parse_name}

all_but_last-concat : (ps : List Bytes) (t : Bytes) → all_but_last (ps ++ (t ∷ [])) ≡ ps
unfolding all_but_last
all_but_last-concat [] t = refl
all_but_last-concat (p ∷ []) t = refl
all_but_last-concat (p ∷ q ∷ ps) t = ap (λ r. p ∷ r) (all_but_last-concat (q ∷ ps) t)

last_token-concat : (ps : List Bytes) (t : Bytes) → last_token (ps ++ (t ∷ [])) ≡ t
unfolding last_token
last_token-concat [] t = refl
last_token-concat (p ∷ []) t = refl
last_token-concat (p ∷ q ∷ ps) t = last_token-concat (q ∷ ps) t

-- A file name that the logger makes: host, dash, id.
abbrev pub log_name : Bytes → Bytes → Bytes
log_name host id = host ++ (b'-' ∷ id)

-- What is left of a name without its extensions.
abbrev pub parse_tokens : Bytes → Bytes × Bytes
parse_tokens filename = (
  join (all_but_last (split filename b'-')) [],
  first_token (split (last_token (split filename b'-')) b'.'),
)

parse_tokens-log_name :
    (host id : Bytes)
    → Lacks b'-' id
    → Lacks b'.' id
    → parse_tokens (log_name host id) ≡ (replace_all host b'-' [], id)
unfolding first_token
parse_tokens-log_name host id h k =
    rw
      (
        split-append_last b'-' host id h,
        all_but_last-concat,
        last_token-concat,
        join-split_nothing,
        split_lacking b'.' id k,
      )
      refl

dot_match : (p : Bytes) → ¬ Lacks b'.' (p ++ codes ".match")
unfolding codes
dot_match [] h = ground arith
dot_match (c ∷ p) (_, h) = dot_match p h

match-Lacks : Lacks b'-' (codes ".match")
unfolding codes
match-Lacks = omega arith

-- A name without the mark of a match does not end in it.
log_name-ne-match :
    (host id rest : Bytes)
    → Lacks b'-' id
    → Lacks b'.' id
    → log_name host id ≢ rest ++ codes ".match"
log_name-ne-match host id rest h k e =
    let (ps, p, parts) = split-append_lacking b'-' rest (codes ".match") match-Lacks in
    let same : id ≡ p ++ codes ".match" =
      sym (last_token-concat (split host b'-') id)
      ∙ ap last_token (sym (split-append_last b'-' host id h))
      ∙ ap (λ s. last_token (split s b'-')) e
      ∙ ap last_token parts
      ∙ last_token-concat ps (p ++ codes ".match") in
    dot_match p (rw same at k)

pub parse_name-log_name :
    (host id : Bytes)
    → Lacks b'-' id
    → Lacks b'.' id
    → (parse_name (log_name host id ++ codes ".txt") ≡ (replace_all host b'-' [], id))
      × (parse_name ((log_name host id ++ codes ".match") ++ codes ".txt")
          ≡ (replace_all host b'-' [], id))
unfolding parse_name
parse_name-log_name host id h k = (
  rw
      (
        trim_suffix-append (codes ".txt") (log_name host id),
        trim_suffix_other (codes ".match") (log_name host id)
            (λ rest. log_name-ne-match host id rest h k),
      )
      (parse_tokens-log_name host id h k),
  rw
      (
        trim_suffix-append (codes ".txt") (log_name host id ++ codes ".match"),
        trim_suffix-append (codes ".match") (log_name host id),
      )
      (parse_tokens-log_name host id h k),
)

store_name-cases :
    (o : OptionsLogger) (suffix : Bytes) (t : HttpTransaction)
    → (store_name o suffix t ≡ log_name (t.userdata.host ++ suffix) t.userdata.id)
      ⊎ (store_name o suffix t
          ≡ log_name (t.userdata.host ++ suffix) t.userdata.id ++ codes ".match")
unfolding store_name codes
store_name-cases o suffix t =
    ground (arith, append_assoc t.userdata.host suffix (b'-' ∷ t.userdata.id))

-- From the name of a stored file, with or without the mark of a match, replay recovers the id,
-- when the id holds no dash and no dot. For the host it takes the host and the suffix of the
-- part with every dash left out, so a host with a dash is not recovered.
pub parse_name-store_name :
    (o : OptionsLogger) (suffix : Bytes) (t : HttpTransaction)
    → Lacks b'-' t.userdata.id
    → Lacks b'.' t.userdata.id
    → parse_name (store_name o suffix t ++ codes ".txt")
      ≡ (replace_all (t.userdata.host ++ suffix) b'-' [], t.userdata.id)
parse_name-store_name o suffix t h k =
    let (plain, marked) = parse_name-log_name (t.userdata.host ++ suffix) t.userdata.id h k in
    elim (store_name-cases o suffix t) [ inl e ↦ rw e plain | inr e ↦ rw e marked ]
