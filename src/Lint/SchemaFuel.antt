-- ===== src/Lint/SchemaFuel.antt =====
-- The fuel of parse_schema_node of cli/src/lint/rules/crd_schema.rs: any that is above the nesting of a
-- schema gives the same nodes.
use catallaxy.Prelude.{
  ℕ, zero, suc, ◌<◌, ◌≡◌, refl, ap, ◌∙◌, some, List, [], ◌∷◌, String, arith, Option-cases, inl, inr,
  if◌then◌else◌,
}
use mathlib.Core.List.{Memᴰ}
use catallaxy.Lint.Yaml.{Yaml}
use catallaxy.Lint.Manifest.{get_str, submap}
use catallaxy.Lint.CrdSchema.{
  SchemaNode, Properties, Subschema, node, property, no_more, present, empty_node, texts_in,
  properties_of, properties_at, subschema, additional, node_of, parse_schema_node,
}

module _ {V : Type 0} (y : Yaml V) where
  -- The parts that a schema is made of.
  data PartOf (value : V) : V → Type 0 where
    in_field : (key : String) (v : V) → y.get_field value key ≡ some v → PartOf value v
    at_property :
        (props k v : V)
        → submap y value "properties" ≡ some props
        → Memᴰ (k, v) (y.entries props)
        → PartOf value v

  module _ (parse parse2 : V → SchemaNode) where
    properties_of-same :
        (es : List (V × V)) (out : Properties)
        → ((k v : V) → Memᴰ (k, v) es → parse v ≡ parse2 v)
        → properties_of y parse es out ≡ properties_of y parse2 es out
    unfolding properties_of
    properties_of-same [] out h = refl
    properties_of-same ((k, v) ∷ es) out h = elim (Option-cases (y.as_str k)) [
      | inl miss ↦
          rw (miss, properties_of) (properties_of-same es out (λ a b m. h a b (Memᴰ.tail m)))
      | inr (key, e) ↦
          rw (e, properties_of, h k v (Memᴰ.head refl))
            (properties_of-same es (property key (parse2 v) out) (λ a b m. h a b (Memᴰ.tail m)))
    ]

    properties_at-same :
        (value : V)
        → ((v : V) → PartOf value v → parse v ≡ parse2 v)
        → properties_at y parse value ≡ properties_at y parse2 value
    properties_at-same value h = elim (Option-cases (submap y value "properties")) [
      | inl miss ↦ rw (miss, properties_at) refl
      | inr (props, e) ↦
          rw (e, properties_at)
            (properties_of-same (y.entries props) no_more
              (λ k v m. h v (at_property props k v e m)))
    ]

    subschema-same :
        (value : V) (key : String)
        → ((v : V) → PartOf value v → parse v ≡ parse2 v)
        → subschema y parse (y.get_field value key) ≡ subschema y parse2 (y.get_field value key)
    subschema-same value key h = elim (Option-cases (y.get_field value key)) [
      | inl miss ↦ rw miss refl
      | inr (v, e) ↦ rw e (ap present (h v (in_field key v e)))
    ]

    additional-same :
        (value : V) (key : String)
        → ((v : V) → PartOf value v → parse v ≡ parse2 v)
        → additional y parse (y.get_field value key) ≡ additional y parse2 (y.get_field value key)
    additional-same value key h = elim (Option-cases (y.get_field value key)) [
      | inl miss ↦ rw miss refl
      | inr (v, e) ↦ rw (e, h v (in_field key v e)) refl
    ]

    node_of-same :
        (value : V)
        → ((v : V) → PartOf value v → parse v ≡ parse2 v)
        → node_of y parse value ≡ node_of y parse2 value
    unfolding node_of
    node_of-same value h =
        let build = λ (properties : Properties) (items more : Subschema).
          (if y.is_mapping value
            then node (get_str y value "type") (texts_in y (y.get_field value "required"))
                properties items (texts_in y (y.get_field value "enum")) more
            else empty_node) in
        let items = subschema-same value "items" h in
        let more = additional-same value "additionalProperties" h in
        let old_items = subschema y parse (y.get_field value "items") in
        let old_more = additional y parse (y.get_field value "additionalProperties") in
        let new_properties = properties_at y parse2 value in
        let new_items = subschema y parse2 (y.get_field value "items") in
        ap (λ p. build p old_items old_more) (properties_at-same value h)
        ∙ ap (λ i. build new_properties i old_more) items
        ∙ ap (build new_properties new_items) more

  -- With a nesting that is less in the parts of a value, more fuel than the nesting of a schema gives the
  -- same node whatever the fuel is.
  module _ (nesting : V → ℕ)
      (less : (value v : V) → PartOf value v → nesting v < nesting value) where
    parse_schema_node-fuel :
        (f g : ℕ) (value : V)
        → nesting value < f
        → nesting value < g
        → parse_schema_node y f value ≡ parse_schema_node y g value
    unfolding parse_schema_node
    parse_schema_node-fuel zero g value h k = absurd (omega arith)
    parse_schema_node-fuel (suc f) zero value h k = absurd (omega arith)
    parse_schema_node-fuel (suc f) (suc g) value h k =
        node_of-same (parse_schema_node y f) (parse_schema_node y g) value (λ v part.
          let smaller = less value v part in
          parse_schema_node-fuel f g v (omega arith) (omega arith))
