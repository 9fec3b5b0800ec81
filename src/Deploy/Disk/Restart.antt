-- ===== src/Deploy/Disk/Restart.antt =====
-- What a restart makes of the file of the metadata.
use filling_pilot_edge_rs.Common.{ℕ, ◌^◌, ◌<◌, ◌≡◌, refl, none, some, String, [], ◌∷◌, All, Option}
use filling_pilot_edge_rs.Common.Dict
use filling_pilot_edge_rs.Common.Dict.{Dict, AllEntries}
use filling_pilot_edge_rs.Common.Eq.{String_eq}
use filling_pilot_edge_rs.Deploy.Disk.{
  nullable, optional_field, property_fields, property_value, property_from, property_of,
  definition_fields, definition_value, definition_from, definition_of, definitions_from,
  cache_fields, cache_file_path, load_from_disk, persist_to_disk,
}
use filling_pilot_edge_rs.Deploy.Meta.{MetaDefinition, DataBlockPropertyDefinition}
use filling_pilot_edge_rs.Files.{Files, Persists, load_text-persist_value}
use filling_pilot_edge_rs.Json.{Json, number, object}
use filling_pilot_edge_rs.Json.Derive.{
  read_or, unsigned_value, text_value-of_text, unsigned_value-of_unsigned, list_value-of_list,
}

-- An optional number of a `usize`.
abbrev OptionFits : Option ℕ → Type 0
OptionFits none = Unit {0}
OptionFits (some n) = n < 2 ^ 64

-- The numbers of a property and of a definition fit in a `usize`.
pub record HasWidths (p : DataBlockPropertyDefinition) : Type 0 where
  pub offset_fits : p.offset < 2 ^ 64
  pub count_fits : p.count < 2 ^ 64
  pub byte_size_fits : OptionFits p.byte_size

abbrev pub DefinitionFits : MetaDefinition → Type 0
DefinitionFits d = (d.block_size < 2 ^ 64) × All HasWidths d.data_block_property_definition_list

module _ (json : Json) where
  open json use {view, make}

  abbrev byte_size_in : Dict String json.Value → Option (Option ℕ)
  byte_size_in fields =
      read_or (λ v. nullable (unsigned_value json (2 ^ 64)) v (view v)) none
        (Dict.get "byteSize" fields)

  byte_size_in-optional_field :
      (size : Option ℕ)
      → OptionFits size
      → byte_size_in (optional_field json "byteSize" size) ≡ some size
  unfolding Dict.get
  byte_size_in-optional_field none h = refl
  byte_size_in-optional_field (some n) h =
      rw (json.view-make (number (json.from_u64 n)), unsigned_value-of_unsigned json (2 ^ 64) n h h)
        refl

  property_from-property_fields :
      (p : DataBlockPropertyDefinition)
      → HasWidths p
      → property_from json (property_fields json p) ≡ some p
  unfolding property_from property_fields Dict.get
  property_from-property_fields p h =
      rw
        (
          text_value-of_text json p.name,
          text_value-of_text json p.property_type,
          unsigned_value-of_unsigned json (2 ^ 64) p.offset h.offset_fits h.offset_fits,
          unsigned_value-of_unsigned json (2 ^ 64) p.count h.count_fits h.count_fits,
          byte_size_in-optional_field p.byte_size h.byte_size_fits,
        )
        refl

  property_of-property_value :
      (p : DataBlockPropertyDefinition)
      → HasWidths p
      → property_of json (property_value json p) ≡ some p
  unfolding property_of property_value
  property_of-property_value p h =
      rw (json.view-make (object (property_fields json p))) (property_from-property_fields p h)

  definition_from-definition_fields :
      (d : MetaDefinition)
      → DefinitionFits d
      → definition_from json (definition_fields json d) ≡ some d
  unfolding definition_from definition_fields Dict.get
  definition_from-definition_fields d h =
      rw
        (
          text_value-of_text json d.java_type,
          unsigned_value-of_unsigned json (2 ^ 64) d.block_size h.0 h.0,
          list_value-of_list json HasWidths (property_of json) (property_value json)
              property_of-property_value d.data_block_property_definition_list h.1,
        )
        refl

  definition_of-definition_value :
      (d : MetaDefinition)
      → DefinitionFits d
      → definition_of json (definition_value json d) ≡ some d
  unfolding definition_of definition_value
  definition_of-definition_value d h =
      rw (json.view-make (object (definition_fields json d)))
        (definition_from-definition_fields d h)

  definitions_from-cache_fields :
      (cache : Dict String MetaDefinition)
      → AllEntries (λ key d. DefinitionFits d) cache
      → definitions_from json (cache_fields json cache) ≡ some cache
  unfolding definitions_from cache_fields
  definitions_from-cache_fields [] h = refl
  definitions_from-cache_fields ((key, d) ∷ cache) h =
      rw (definition_of-definition_value d h.0, definitions_from-cache_fields cache h.1) refl

module _ (json : Json) (files : Files json.Value) where
  -- The definitions that are kept in a file that is written are those that the next start of the node
  -- loads from it, whatever is in its cache by then.
  pub load_from_disk-persist_to_disk :
      (entry : String × MetaDefinition) (rest cache : Dict String MetaDefinition) (d : files.Disk)
      → AllEntries (λ key d. DefinitionFits d) (entry ∷ rest)
      → Persists files
          (cache_file_path json files)
          (json.make (object (cache_fields json (entry ∷ rest))))
          d
      → load_from_disk json files (persist_to_disk json files (entry ∷ rest) d) cache ≡ entry ∷ rest
  unfolding load_from_disk persist_to_disk
  load_from_disk-persist_to_disk entry rest cache d fit w =
      rw
        (
          load_text-persist_value files _ _ d w,
          w.parsed,
          json.view-make (object (cache_fields json (entry ∷ rest))),
          definitions_from-cache_fields json (entry ∷ rest) fit,
        )
        refl
