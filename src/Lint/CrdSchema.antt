-- ===== src/Lint/CrdSchema.antt =====
-- cli/src/lint/rules/crd_schema.rs and missing_crd.rs: the schemas of custom resources, what they say
-- of the resources, and the resources without one.
use catallaxy.Prelude.{
  ℕ, zero, suc, Bool, true, false, ◌||◌, Option, none, some, List, [], ◌∷◌, ◌++◌, String, ◌<>◌,
  ◌==◌, or_else, flat_map, filter_map, contains, is_empty, is_nil, join, decimal, if◌then◌else◌,
}
use catallaxy.Lint.{Diagnostic, error, warning, Severity}
use catallaxy.Lint.Yaml.{
  Yaml, elements, Shape, null, boolean, number, text, sequence, mapping, tagged,
}
use catallaxy.Lint.Manifest.{K8sResource, get_str, submap}
use catallaxy.Lint.Context.{resource_diag}

-- The properties are a `HashMap` of nodes; `items` and `additional_properties` may be missing.
mutual
  pub data SchemaNode : Type 0 where
    node :
        (schema_type : Option String) (required : List String) (properties : Properties)
        (items : Subschema) (enum_values : List String) (additional_properties : Subschema)
        → SchemaNode

  pub data Properties : Type 0 where
    no_more : Properties
    property : String → SchemaNode → Properties → Properties

  pub data Subschema : Type 0 where
    missing : Subschema
    present : SchemaNode → Subschema

abbrev pub empty_node : SchemaNode
empty_node = node none [] no_more missing [] missing

unfoldable pub crd_key : String → String → String
crd_key api_version kind = api_version <> ("/" <> kind)

unfoldable pub field_path : String → String
field_path path = if is_empty path then "(root)" else path

unfoldable pub yaml_type_name : Shape → String
yaml_type_name null = "null"
yaml_type_name boolean = "boolean"
yaml_type_name (number _) = "number"
yaml_type_name (text _) = "string"
yaml_type_name sequence = "array"
yaml_type_name mapping = "object"
yaml_type_name tagged = "tagged"

abbrev is_some : {A : Type 0} → Option A → Bool
is_some none = false
is_some (some _) = true

module _ {V : Type 0} (y : Yaml V) where
  abbrev pub texts_in : Option V → List String
  texts_in v = filter_map y.as_str (elements y v)

  -- The parts of a node, by the parser of the nodes in it.
  module _ (parse : V → SchemaNode) where
    unfoldable pub properties_of : List (V × V) → Properties → Properties
    properties_of [] out = out
    properties_of ((k, v) ∷ rest) out = elim (y.as_str k) [
      | none ↦ properties_of rest out
      | some key ↦ properties_of rest (property key (parse v) out)
    ]

    abbrev pub subschema : Option V → Subschema
    subschema none = missing
    subschema (some v) = present (parse v)

    abbrev pub additional : Option V → Subschema
    additional none = missing
    additional (some v) = if is_some (y.as_bool v) then missing else present (parse v)

    abbrev pub properties_at : V → Properties
    properties_at value = elim (submap y value "properties") [
      | none ↦ no_more
      | some props ↦ properties_of (y.entries props) no_more
    ]

    unfoldable pub node_of : V → SchemaNode
    unfolding properties_of
    node_of value =
        if y.is_mapping value
        then node (get_str y value "type") (texts_in (y.get_field value "required"))
            (properties_at value) (subschema (y.get_field value "items"))
            (texts_in (y.get_field value "enum"))
            (additional (y.get_field value "additionalProperties"))
        else empty_node

  -- The nesting of a schema is bounded by the fuel.
  unfoldable pub parse_schema_node : ℕ → V → SchemaNode
  unfolding node_of
  parse_schema_node zero value = empty_node
  parse_schema_node (suc f) value = node_of (λ v. parse_schema_node f v) value

  -- The test of a value against the type that a schema wants.
  unfoldable pub type_ok : String → V → Bool
  type_ok expected value =
      if expected == "object"
      then y.is_mapping value || y.is_null value
      else if expected == "array"
      then is_some (y.as_sequence value) || y.is_null value
      else if expected == "string"
      then is_some (y.as_str value) || y.is_null value
      else if expected == "integer"
      then y.is_i64 value || y.is_u64 value || y.is_null value
      else if expected == "number"
      then y.is_number value || y.is_null value
      else if expected == "boolean"
      then is_some (y.as_bool value) || y.is_null value
      else true

  module _ (cluster : String) (r : K8sResource V) where
    abbrev at_field : Severity → String → String → Diagnostic
    at_field severity path message =
        resource_diag severity "crd-schema" cluster r (field_path path <> (": " <> message))

    abbrev wrong_type : Option String → V → String → List Diagnostic
    wrong_type none value path = []
    wrong_type (some expected) value path =
        if type_ok expected value
        then []
        else at_field warning path (
            "expected type '"
            <> (expected <> ("', got '" <> (yaml_type_name (y.shape value) <> "'"))))
          ∷ []

    abbrev wrong_value : List String → V → String → List Diagnostic
    wrong_value enum_values value path = elim (y.as_str value) [
      | none ↦ []
      | some s ↦
          if is_nil enum_values || contains enum_values s
          then []
          else at_field error path
              ("value '" <> (s <> ("' not in allowed values [" <> (join ", " enum_values <> "]"))))
            ∷ []
    ]

    abbrev absent_fields : List String → V → String → List Diagnostic
    absent_fields required value path =
        flat_map
          (λ req.
            if is_some (y.get_field value req)
            then []
            else at_field error path ("missing required field '" <> (req <> "'")) ∷ [])
          required

    abbrev child_path : String → String → String
    child_path path key = if is_empty path then key else path <> ("." <> key)

    unfoldable mutual
      pub validate_object : SchemaNode → V → String → List Diagnostic
      validate_object (node type required props items enums ap) value path =
          let wrong = wrong_type type value path in
          let fields =
            flat_map
              (λ e. elim (y.as_str e.0) [
                | none ↦ []
                | some key ↦
                    or_else (validate_property props key e.1 (child_path path key))
                      (validate_sub ap e.1 (child_path path key))
              ])
              (y.entries value) in
          let seq = validate_items items 0 (elements y (some value)) path in
          if is_nil wrong
          then wrong_value enums value path
            ++ (if y.is_mapping value then absent_fields required value path ++ fields else [])
            ++ seq
          else wrong

      pub validate_property : Properties → String → V → String → Option (List Diagnostic)
      validate_property no_more key value path = none
      validate_property (property k schema more) key value path =
          let here = validate_object schema value path in
          let later = validate_property more key value path in if k == key then some here else later

      pub validate_sub : Subschema → V → String → List Diagnostic
      validate_sub missing value path = []
      validate_sub (present schema) value path = validate_object schema value path

      pub validate_items : Subschema → ℕ → List V → String → List Diagnostic
      validate_items missing i seq path = []
      validate_items (present schema) i [] path = []
      validate_items (present schema) i (item ∷ seq) path =
          validate_object schema item (path <> ("[" <> (decimal i <> "]")))
          ++ validate_items (present schema) (suc i) seq path
