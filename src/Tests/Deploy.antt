-- ===== src/Tests/Deploy.antt =====
-- A deployment of a level, an array and a label.
use filling_pilot_edge_rs.Common.{true, String, none, some, [], ◌∷◌}
use filling_pilot_edge_rs.Common.Dict.{Dict}
use filling_pilot_edge_rs.Common.Eq.{String_eq}
use filling_pilot_edge_rs.Common.Int.{negsuc}
use filling_pilot_edge_rs.Deploy.Meta.{DataBlockPropertyDefinition, MetaDefinition}
use filling_pilot_edge_rs.Deploy.Write.{DeployCrates}
use filling_pilot_edge_rs.Tests.Tree.{Tree, text, integer}
use filling_pilot_edge_rs.Tests.Codec.{crates}

abbrev level : DataBlockPropertyDefinition
level = record {
  name = "level";
  property_type = "integer";
  offset = 2;
  count = 3;
  byte_size = some 2;
}

abbrev label : DataBlockPropertyDefinition
label = record level {
  name = "label";
  property_type = "string";
  offset = 0;
  count = 1;
  byte_size = some 20;
}

abbrev pub tank : MetaDefinition
tank = record {
  java_type = "Tank";
  block_size = 8;
  data_block_property_definition_list = level ∷ [];
}

abbrev pub content : Dict String Tree
content = ("level", integer (negsuc 1)) ∷ ("label", text "abc") ∷ []

abbrev pub deploys : DeployCrates
deploys = record {
  codec = crates;
  error_text = λ e. e.message;
  can_block = true;
  trim = λ s. s;
  parse_callback = λ s. none;
  parse_deployment = λ s. none;
  parse_deployments = λ s. none;
}
