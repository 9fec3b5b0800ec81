-- ===== src/Deploy/Disk.antt =====
-- The file of the metadata, `~/.edge/object-meta.json` (`load_from_disk` and `persist_to_disk` of
-- `PLCSerializeMetaFactory`), and what serde derives for definitions.
pub mod Restart
use Prim.Native.String.{◌++◌ as ◌<>◌}
use filling_pilot_edge_rs.Common.{
  ℕ, ◌^◌, String, Option, none, some, List, [], ◌∷◌, ◌++◌, is_empty, unwrap_or, if◌then◌else◌,
}
use filling_pilot_edge_rs.Common.Dict
use filling_pilot_edge_rs.Common.Dict.{Dict}
use filling_pilot_edge_rs.Common.Eq.{String_eq}
use filling_pilot_edge_rs.Common.Maybe.{◌>>=◌}
use filling_pilot_edge_rs.Deploy.Meta.{MetaDefinition, DataBlockPropertyDefinition}
use filling_pilot_edge_rs.Files.{Files, cache_dir, load_text, persist_value}
use filling_pilot_edge_rs.Json.{Json, View, null, array, object}
use filling_pilot_edge_rs.Json.Derive.{
  struct_fields, required, defaulted, read_or, text_value, unsigned_value, list_value, of_text,
  of_unsigned, of_list,
}

abbrev pub property_names : List String
property_names = "name" ∷ "type" ∷ "offset" ∷ "count" ∷ "byteSize" ∷ []

abbrev pub definition_names : List String
definition_names = "javaType" ∷ "blockSize" ∷ "dataBlockPropertyDefinitionList" ∷ []

-- `default_count`
abbrev pub default_count : ℕ
default_count = 1

-- An `Option` of a field that is there: `null` is `None`.
abbrev pub nullable : {V N A : Type 0} → (V → Option A) → V → View V N → Option (Option A)
nullable read v null = some none
nullable read v _ = do a ← read v; some (some a)

module _ (json : Json) where
  open json use {Value, view, make}

  -- An optional field is left out where it is `None`.
  abbrev pub optional_field : String → Option ℕ → Dict String Value
  optional_field name none = []
  optional_field name (some n) = (name, of_unsigned json n) ∷ []

  -- the derived `Serialize` of a property
  unfoldable pub property_fields : DataBlockPropertyDefinition → Dict String Value
  property_fields p =
      ("name", of_text json p.name)
      ∷ ("type", of_text json p.property_type)
      ∷ ("offset", of_unsigned json p.offset)
      ∷ ("count", of_unsigned json p.count)
      ∷ optional_field "byteSize" p.byte_size

  unfoldable pub property_value : DataBlockPropertyDefinition → Value
  unfolding property_fields
  property_value p = make (object (property_fields p))

  -- the derived `Deserialize` of a property
  unfoldable pub property_from : Dict String Value → Option DataBlockPropertyDefinition
  property_from fields = do
    name ← required (text_value json) "name" fields
    property_type ← required (text_value json) "type" fields
    offset ← required (unsigned_value json (2 ^ 64)) "offset" fields
    count ← defaulted (unsigned_value json (2 ^ 64)) default_count "count" fields
    byte_size ←
        read_or (λ v. nullable (unsigned_value json (2 ^ 64)) v (view v)) none
          (Dict.get "byteSize" fields)
    some (record {
      name = name;
      property_type = property_type;
      offset = offset;
      count = count;
      byte_size = byte_size;
    })

  unfoldable pub property_of : Value → Option DataBlockPropertyDefinition
  unfolding property_from
  property_of v = do fields ← struct_fields 5 property_names (view v); property_from fields

  -- the derived `Serialize` of a definition
  unfoldable pub definition_fields : MetaDefinition → Dict String Value
  unfolding property_value
  definition_fields d =
      ("javaType", of_text json d.java_type)
      ∷ ("blockSize", of_unsigned json d.block_size)
      ∷ (
        "dataBlockPropertyDefinitionList",
        make (array (of_list json property_value d.data_block_property_definition_list)),
      )
      ∷ []

  unfoldable pub definition_value : MetaDefinition → Value
  unfolding definition_fields
  definition_value d = make (object (definition_fields d))

  -- the derived `Deserialize` of a definition
  unfoldable pub definition_from : Dict String Value → Option MetaDefinition
  unfolding property_of
  definition_from fields = do
    java_type ← required (text_value json) "javaType" fields
    block_size ← required (unsigned_value json (2 ^ 64)) "blockSize" fields
    properties ← defaulted (list_value json property_of) [] "dataBlockPropertyDefinitionList" fields
    some (record {
      java_type = java_type;
      block_size = block_size;
      data_block_property_definition_list = properties;
    })

  unfoldable pub definition_of : Value → Option MetaDefinition
  unfolding definition_from
  definition_of v = do fields ← struct_fields 2 definition_names (view v); definition_from fields

  -- `serde_json::from_str::<HashMap<String, DataBlockDefinition>>`, of an object's fields, whose keys are
  -- distinct.
  unfoldable pub definitions_from : Dict String Value → Option (Dict String MetaDefinition)
  unfolding definition_of
  definitions_from [] = some []
  definitions_from ((key, v) ∷ fields) = do
    d ← definition_of v
    rest ← definitions_from fields
    some ((key, d) ∷ rest)

  abbrev pub definitions_of : View Value json.Number → Option (Dict String MetaDefinition)
  definitions_of (object fields) = definitions_from fields
  definitions_of _ = none

  -- the `Serialize` of the map
  unfoldable pub cache_fields : Dict String MetaDefinition → Dict String Value
  unfolding definition_value
  cache_fields [] = []
  cache_fields ((key, d) ∷ cache) = (key, definition_value d) ∷ cache_fields cache

module _ (json : Json) (files : Files json.Value) where
  open files use {Disk}
  open json use {view, make}

  -- `cache_file_path`
  abbrev pub cache_file_path : String
  cache_file_path = cache_dir files <> "/object-meta.json"

  -- `load_from_disk`: a file that is parsed takes the place of the whole cache.
  unfoldable pub load_from_disk : Disk → Dict String MetaDefinition → Dict String MetaDefinition
  unfolding definitions_from
  load_from_disk d cache =
      unwrap_or
        (do
          text ← load_text files cache_file_path d
          value ← files.from_str text
          definitions_of json (view value))
        cache

  unfoldable pub persist_to_disk : Dict String MetaDefinition → Disk → Disk
  unfolding cache_fields
  persist_to_disk cache d =
      if is_empty cache
      then d
      else persist_value files cache_file_path (make (object (cache_fields json cache))) d
