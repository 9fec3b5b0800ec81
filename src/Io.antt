-- ===== src/Io.antt =====
-- What the report cache and the monitors use of the rest of the node: PLC reads through the S7
-- manager (src/s7.rs) and the wall clock. The outside world is a state that each call may change.
use filling_pilot_edge_rs.Common.{ℕ, String, List}
use filling_pilot_edge_rs.Error.{Error, Result}

pub record Io : Type 1 where
  pub World : Type 0
  -- `S7Manager::read_bytes(host, port, db_number, offset, size)`
  pub read_bytes : String → ℕ → ℕ → ℕ → ℕ → World → Result (List ℕ) Error × World
  -- `now_millis()`, a u64
  pub now_millis : World → ℕ × World
