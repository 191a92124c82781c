-- ===== src/Swaggergen/Responses.antt =====
-- pkg/swaggergen/content.go and response.go.
use proxify.Common.{Option, none, some, []}
use proxify.Go.Outcome.{Outcome, ok, panic, ◌>>=◌}
use proxify.Go.Strings.{Bytes, codes}
use proxify.Go.Maps.{Map, lookup, insert}
use proxify.Go.Http.{Response, header_get}
use proxify.Swaggergen.Schemas.{Json, Schema, new_schema}

pub record Content : Type 0 where
  pub schema : Option Schema

-- `Response` of the specification.
pub record SpecResponse : Type 0 where
  pub description : Bytes
  pub content : Map (Option Content)

module _ (unmarshal : Bytes → Outcome Json) where
  -- `NewContent`: nil for a response without a body.
  unfoldable pub new_content : Response → Outcome (Option Content)
  new_content res = elim res.body [
    | none ↦ ok none
    | some b ↦ new_schema unmarshal (some b) >>= λ s. ok (some (record { schema = s }))
  ]

  -- `UpdateContent`: a nil content panics, unless there is no body.
  unfoldable pub update_content : Option Content → Response → Outcome (Option Content)
  update_content c res = elim res.body [
    | none ↦ ok c
    | some b ↦ new_schema unmarshal (some b) >>= λ s. elim c [
      | none ↦ panic
      | some old ↦ ok (some (record old { schema = s }))
    ]
  ]

  -- `NewResponse`: nil for a response without a header.
  unfoldable pub new_response : Response → Outcome (Option SpecResponse)
  new_response res = elim res.header [
    | none ↦ ok none
    | some h ↦ new_content res >>= λ c. ok (
        some (record {
          description = [];
          content = insert (header_get (codes "Content-Type") h) c [];
        }))
  ]

  -- The content for the type of a response: a new one, or the old one updated.
  unfoldable pub content_for : Map (Option Content) → Bytes → Response → Outcome (Option Content)
  content_for contents key res = elim (lookup key contents) [
    | none ↦ new_content res
    | some c ↦ update_content c res
  ]

  -- `UpdateResponse`: a nil response panics, unless there is no header.
  unfoldable pub update_response : Option SpecResponse → Response → Outcome (Option SpecResponse)
  unfolding content_for
  update_response r res = elim res.header [
    | none ↦ ok r
    | some h ↦ elim r [
      | none ↦ panic
      | some old ↦
          let key = header_get (codes "Content-Type") h in
          content_for old.content key res >>= λ c.
          ok (some (record old { content = insert key c old.content }))
    ]
  ]
