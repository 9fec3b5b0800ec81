-- ===== src/S7/Crate.antt =====
-- What the manager uses of the s7_connector crate and of the clock. A call may change the connection
-- and the outside world, whatever its result.
use filling_pilot_edge_rs.Common.{ℕ, String, Bool, List}
use filling_pilot_edge_rs.Error.{Error, Result}

pub record S7Crate : Type 1 where
  pub World : Type 0
  pub Connection : Type 0
  -- `S7Connection::new` of the default configuration with a host and a port
  pub new : String → ℕ → Connection
  pub connect : Connection → World → Result Connection Error × World
  pub is_connected : Connection → Bool
  pub read_db : Connection → ℕ → ℕ → ℕ → World → Result (List ℕ) String × Connection × World
  pub write_db : Connection → ℕ → ℕ → List ℕ → World → Result (Unit {0}) String × Connection × World
  pub disconnect : Connection → World → World
  -- the clock, in ms
  pub now : World → ℕ × World
