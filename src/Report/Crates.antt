-- ===== src/Report/Crates.antt =====
-- What the report cache uses of other crates: `hex::encode`, and the JSON texts of `serde_json`.
use filling_pilot_edge_rs.Common.{ℕ, String, List}
use filling_pilot_edge_rs.Report.PlcReport.{PlcReport}

pub record Crates : Type 0 where
  pub hex_encode : List ℕ → String
  -- `serde_json::to_string(report)`
  pub report_json : PlcReport → String
  -- `serde_json::to_string(&changed_list)`, of the pairs of `fillStation` and `status`
  pub status_json : List (String × String) → String
