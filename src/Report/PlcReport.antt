-- ===== src/Report/PlcReport.antt =====
-- Reports (src/report/plc_report.rs).
use filling_pilot_edge_rs.Common.{ℕ, String, Bool, false}
use filling_pilot_edge_rs.Common.Int.{ℤ, pos}

pub record PlcReport : Type 0 where
  pub report_id : ℤ  -- i64
  pub fill_station : String
  pub task_id : ℤ  -- i64
  pub start_time : ℤ  -- epoch millis
  pub end_time : ℤ  -- epoch millis
  pub ip : String
  pub port : ℕ  -- u16
  pub db_index : ℤ  -- i32
  pub hex_content : String
  pub sent : Bool

-- `PlcReport::new`
abbrev pub new : PlcReport
new = record {
  report_id = pos 0;
  fill_station = "";
  task_id = pos 0;
  start_time = pos 0;
  end_time = pos 0;
  ip = "";
  port = 0;
  db_index = pos 0;
  hex_content = "";
  sent = false;
}
