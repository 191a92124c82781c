-- ===== src/Swaggergen/Schemas.antt =====
-- pkg/swaggergen/schema.go and content.go.
use proxify.Common.{Bool, Option, none, some, []}
use proxify.Go.Outcome.{Outcome, ok, err, panic}
use proxify.Go.Strings.{Bytes, codes}
use proxify.Go.Http.{Body, read_all}

-- The value that `json.Unmarshal` makes. The fields of an object stand in the order of one
-- iteration.
mutual
  pub data Json : Type 0 where
    object : Fields → Json
    array : Items → Json
    string : Bytes → Json
    number : Bytes → Json
    boolean : Bool → Json
    null : Json

  pub data Fields : Type 0 where
    no_fields : Fields
    field : Bytes → Json → Fields → Fields

  pub data Items : Type 0 where
    no_items : Items
    item : Json → Items → Items

-- `Schema`, with its type, properties and description. A nil map of properties, which is left out
-- of the output like an empty one, is an empty list.
mutual
  pub data Schema : Type 0 where
    schema : Bytes → Properties → Bytes → Schema

  pub data Properties : Type 0 where
    no_properties : Properties
    property : Bytes → Schema → Properties → Properties

-- `InterfaceToType`
unfoldable pub interface_to_type : Json → Bytes
interface_to_type (object fs) = codes "object"
interface_to_type (array js) = codes "array"
interface_to_type (string s) = codes "string"
interface_to_type (number n) = codes "number"
interface_to_type (boolean b) = codes "boolean"
interface_to_type null = codes "notfound"

-- The loop over the fields of an object.
unfoldable pub field_schemas : Fields → Properties
field_schemas no_fields = no_properties
field_schemas (field key value fs) =
    property key (schema (interface_to_type value) no_properties []) (field_schemas fs)

unfoldable pub data_properties : Json → Properties
unfolding field_schemas
data_properties (object fs) = field_schemas fs
data_properties _ = no_properties

-- `NewSchema`: nil if the reader fails or its text is no JSON.
unfoldable pub new_schema : (Bytes → Outcome Json) → Option Body → Outcome (Option Schema)
unfolding data_properties
new_schema unmarshal body = elim (read_all body).0 [
  | panic ↦ panic
  | err e ↦ ok none
  | ok text ↦ elim (unmarshal text) [
    | panic ↦ panic
    | err e ↦ ok none
    | ok value ↦ ok (some (schema (interface_to_type value) (data_properties value) []))
  ]
]
