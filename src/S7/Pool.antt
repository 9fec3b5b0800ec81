-- ===== src/S7/Pool.antt =====
-- The operations of `S7Manager`. The pool holds the connection that all tasks share for a PLC, so a
-- call on a shared connection is a change of its entry.
pub mod Isolation
pub mod Status
use Prim.Native.String.{◌++◌ as ◌<>◌}
use filling_pilot_edge_rs.Common.{
  ℕ, ◌-◌, ◌%◌, String, Bool, true, false, Option, none, some, List, [], ◌∷◌, is_none, if◌then◌else◌,
}
use filling_pilot_edge_rs.Common.Dict
use filling_pilot_edge_rs.Common.Dict.{Dict}
use filling_pilot_edge_rs.Common.Eq.{String_eq}
use filling_pilot_edge_rs.Common.Text.{show_ℕ}
use filling_pilot_edge_rs.Error.{Error, Result, ok, err, s7_error}
use filling_pilot_edge_rs.Io.{Io}
use filling_pilot_edge_rs.Codec.Property.{DataBlockDefinition}
use filling_pilot_edge_rs.Codec.Block
use filling_pilot_edge_rs.Codec.Crates.{Crates}
use filling_pilot_edge_rs.S7.Crate.{S7Crate}
use filling_pilot_edge_rs.S7.Types.{PlcConfig, PlcConnectionStatus}

-- `format!("{}:{}", host, port)`
abbrev pub key_of : String → ℕ → String
key_of host port = host <> (":" <> show_ℕ port)

unfoldable pub map_error : {A : Type 0} → String → Result A String → Result A Error
map_error prefix (ok a) = ok a
map_error prefix (err e) = err (s7_error (prefix <> e))

module _ (s7 : S7Crate) where
  open s7 use {World, Connection}

  -- `S7Manager`, with the world that its calls act on
  pub record S7Manager : Type 0 where
    pub connections : Dict String Connection
    pub plc_list : List PlcConfig
    pub world : World

  -- `for (_, shared) in pool.drain()`
  unfoldable pub disconnect_all : Dict String Connection → World → World
  disconnect_all [] w = w
  disconnect_all ((key, conn) ∷ pool) w = disconnect_all pool (s7.disconnect conn w)

module _ {s7 : S7Crate} where
  open s7 use {World, Connection}

  -- An entry of the pool.
  abbrev pub store : String → Connection → S7Manager s7 → S7Manager s7
  store key conn p = record p { connections = Dict.insert key conn p.connections }

  abbrev pub forget : String → S7Manager s7 → S7Manager s7
  forget key p = record p { connections = Dict.remove key p.connections }

  unfoldable pub create_connections : List PlcConfig → S7Manager s7 → S7Manager s7
  create_connections [] p = p
  create_connections (plc ∷ plcs) p =
      let key = key_of plc.ip plc.port in
      create_connections plcs (record p {
        connections =
            if is_none (Dict.get key p.connections)
            then Dict.insert key (s7.new plc.ip plc.port) p.connections
            else p.connections;
      })

  unfoldable pub update_plc_list : List PlcConfig → S7Manager s7 → S7Manager s7
  unfolding create_connections
  update_plc_list plcs p = create_connections plcs (record p { plc_list = plcs })

  unfoldable pub get_or_create :
      Option Connection → String → ℕ → S7Manager s7 → Connection × S7Manager s7
  get_or_create (some conn) host port p = (conn, p)
  get_or_create none host port p =
      let conn = s7.new host port in (conn, store (key_of host port) conn p)

  unfoldable pub get_connection : String → ℕ → S7Manager s7 → Connection × S7Manager s7
  unfolding get_or_create
  get_connection host port p = get_or_create (Dict.get (key_of host port) p.connections) host port p

  -- What comes of `connector.connect()`.
  unfoldable pub connected :
      String
      → Result Connection Error × World
      → S7Manager s7
      → Result Connection Error × S7Manager s7
  connected key (ok conn, w) p = (ok conn, store key conn (record p { world = w }))
  connected key (err e, w) p = (err e, record p { world = w })

  unfoldable pub connect_fresh : String → ℕ → S7Manager s7 → Result Connection Error × S7Manager s7
  unfolding connected
  connect_fresh host port p = connected (key_of host port) (s7.connect (s7.new host port) p.world) p

  -- The fast path, if the pool has a connection that is alive.
  unfoldable pub connect_with :
      Option Connection → String → ℕ → S7Manager s7 → Result Connection Error × S7Manager s7
  unfolding connect_fresh
  connect_with none host port p = connect_fresh host port p
  connect_with (some conn) host port p =
      if s7.is_connected conn then (ok conn, p) else connect_fresh host port p

  unfoldable pub connect : String → ℕ → S7Manager s7 → Result Connection Error × S7Manager s7
  unfolding connect_with
  connect host port p = connect_with (Dict.get (key_of host port) p.connections) host port p

  -- The result of a call on the shared connection of a key.
  unfoldable pub settle :
      {A : Type 0}
      → String
      → String
      → Result A String × Connection × World
      → S7Manager s7
      → Result A Error × S7Manager s7
  unfolding map_error
  settle prefix key (r, conn, w) p = (map_error prefix r, store key conn (record p { world = w }))

  unfoldable pub read_with :
      String
      → ℕ
      → ℕ
      → ℕ
      → Result Connection Error × S7Manager s7
      → Result (List ℕ) Error × S7Manager s7
  unfolding settle
  read_with key db_number offset size (ok conn, p) =
      settle "Read failed: " key (s7.read_db conn db_number offset size p.world) p
  read_with key db_number offset size (err e, p) = (err e, p)

  unfoldable pub read_bytes :
      String → ℕ → ℕ → ℕ → ℕ → S7Manager s7 → Result (List ℕ) Error × S7Manager s7
  unfolding read_with connect
  read_bytes host port db_number offset size p =
      read_with (key_of host port) db_number offset size (connect host port p)

  unfoldable pub write_with :
      String
      → ℕ
      → ℕ
      → List ℕ
      → Result Connection Error × S7Manager s7
      → Result (Unit {0}) Error × S7Manager s7
  unfolding settle
  write_with key db_number offset bytes (ok conn, p) =
      settle "Write failed: " key (s7.write_db conn db_number offset bytes p.world) p
  write_with key db_number offset bytes (err e, p) = (err e, p)

  unfoldable pub write_bytes :
      String → ℕ → ℕ → ℕ → List ℕ → S7Manager s7 → Result (Unit {0}) Error × S7Manager s7
  unfolding write_with connect
  write_bytes host port db_number offset bytes p =
      write_with (key_of host port) db_number offset bytes (connect host port p)

  unfoldable pub close_all : S7Manager s7 → S7Manager s7
  unfolding disconnect_all
  close_all p = record p { connections = []; world = disconnect_all s7 p.connections p.world }

  -- The probe read of `test_connection`: a connection that fails is forgotten.
  unfoldable pub probed :
      String
      → ℕ
      → Result (List ℕ) String × Connection × World
      → S7Manager s7
      → (Bool × Option ℕ) × S7Manager s7
  probed key start (ok bytes, conn, w) p =
      let (end, w') = s7.now w in
      (
        (true, some ((end - start) % 18446744073709551616)),
        store key conn (record p { world = w' }),
      )
  probed key start (err e, conn, w) p = ((false, none), forget key (record p { world = w }))

  unfoldable pub test_with :
      String → ℕ → Result Connection Error × S7Manager s7 → (Bool × Option ℕ) × S7Manager s7
  unfolding probed
  test_with key start (ok conn, p) = probed key start (s7.read_db conn 1 0 1 p.world) p
  test_with key start (err e, p) = ((false, none), forget key p)

  unfoldable pub test_connection : String → ℕ → S7Manager s7 → (Bool × Option ℕ) × S7Manager s7
  unfolding test_with connect
  test_connection host port p =
      let (start, w) = s7.now p.world in
      test_with (key_of host port) start (connect host port (record p { world = w }))

  unfoldable pub check_connections :
      List PlcConfig → S7Manager s7 → List PlcConnectionStatus × S7Manager s7
  unfolding test_connection
  check_connections [] p = ([], p)
  check_connections (plc ∷ plcs) p =
      let ((alive, latency), p') = test_connection plc.ip plc.port p in
      let (rest, p'') = check_connections plcs p' in
      (
        record { host = plc.ip; port = plc.port; connected = alive; latency_ms = latency } ∷ rest,
        p'',
      )

  unfoldable pub check_all_connections : S7Manager s7 → List PlcConnectionStatus × S7Manager s7
  unfolding check_connections
  check_all_connections p = check_connections p.plc_list p

module _ (s7 : S7Crate) where
  -- The manager as what the reports and the monitors read through.
  abbrev pub manager_io : Io
  manager_io = record {
    World = S7Manager s7;
    read_bytes = read_bytes;
    now_millis = λ p. let (t, w) = s7.now p.world in (t, record p { world = w });
  }
