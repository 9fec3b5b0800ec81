-- ===== src/Tests/S7.antt =====
-- The S7 manager over a simulated PLC: connections to 10.0.0.9 fail, reads give the offset.
use filling_pilot_edge_rs.Common.{ℕ, ◌+◌, String, Bool, true, false, [], ◌∷◌, str_eq, if◌then◌else◌}
use filling_pilot_edge_rs.Error.{Error, Result, ok, err, io_error}
use filling_pilot_edge_rs.S7.Crate.{S7Crate}
use filling_pilot_edge_rs.S7.Types.{PlcConfig}
use filling_pilot_edge_rs.S7.Pool.{S7Manager, key_of, read_bytes, write_bytes, test_connection}
use filling_pilot_edge_rs.Common.Dict
use filling_pilot_edge_rs.Common.Eq.{String_eq}
use filling_pilot_edge_rs.S7.Pool.Isolation.{OnlyChanges, operations-OnlyChange}
use filling_pilot_edge_rs.Processor.{HexCrate}

-- A connection is its host, and whether it is alive.
abbrev dial : String × Bool → ℕ → Result (String × Bool) Error × ℕ
dial (host, alive) w =
    if str_eq host "10.0.0.9" then (err (io_error "timed out"), w + 1) else (ok (host, true), w + 1)

abbrev pub s7 : S7Crate
s7 = record {
  World = ℕ;
  Connection = String × Bool;
  new = λ host port. (host, false);
  connect = dial;
  is_connected = λ conn. conn.1;
  read_db = λ conn db offset size w. (ok (offset ∷ []), conn, w + 1);
  write_db = λ conn db offset bytes w. (ok tt, conn, w + 1);
  disconnect = λ conn w. w + 1;
  now = λ w. (w, w);
}

abbrev pub hex : HexCrate
hex = record {
  encode = λ bytes. "07";
  decode = λ s. if str_eq s "zz" then err "Invalid character" else ok (7 ∷ []);
  error_text = λ e. e.message;
}

abbrev pub plc : PlcConfig
plc = record { id = "p1"; ip = "10.0.0.1"; port = 102 }

abbrev pub manager : S7Manager s7
manager = record {
  connections = ("10.0.0.1:102", ("10.0.0.1", true)) ∷ [];
  plc_list = plc ∷ record plc { ip = "10.0.0.9" } ∷ [];
  world = 5;
}

operations-OnlyChange_example :
    OnlyChanges (key_of "10.0.0.9" 102) manager (read_bytes "10.0.0.9" 102 1 0 4 manager).1
    × OnlyChanges (key_of "10.0.0.9" 102) manager (write_bytes "10.0.0.9" 102 1 0 [] manager).1
    × OnlyChanges (key_of "10.0.0.9" 102) manager (test_connection "10.0.0.9" 102 manager).1
operations-OnlyChange_example = operations-OnlyChange "10.0.0.9" 102 1 0 4 [] manager
