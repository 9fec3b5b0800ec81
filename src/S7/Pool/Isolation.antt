-- ===== src/S7/Pool/Isolation.antt =====
-- What a call on one PLC does to the pool.
use filling_pilot_edge_rs.Common.{
  ℕ, ◌≡◌, refl, ◌∙◌, String, false, Option, none, some, List, str_eq, Bool-cases, Option-cases, inl,
  inr,
}
use filling_pilot_edge_rs.Common.Dict
use filling_pilot_edge_rs.Common.Dict.{Dict}
use filling_pilot_edge_rs.Common.Eq.{String_eq}
use filling_pilot_edge_rs.Error.{Error, Result, ok, err}
use filling_pilot_edge_rs.S7.Crate.{S7Crate}
use filling_pilot_edge_rs.S7.Pool.{
  S7Manager, key_of, connected, connect_fresh, connect_with, connect, settle, read_with, read_bytes,
  write_with, write_bytes, probed, test_with, test_connection,
}

module _ {s7 : S7Crate} where
  open s7 use {World, Connection}

  -- The connections of the other PLCs and the list of PLCs stay as they were.
  abbrev pub OnlyChanges : String → S7Manager s7 → S7Manager s7 → Type 0
  OnlyChanges key p p' =
      ((k : String) → str_eq k key ≡ false → Dict.get k p'.connections ≡ Dict.get k p.connections)
      × (p'.plc_list ≡ p.plc_list)

  OnlyChanges-trans :
      (key : String) (p p' p'' : S7Manager s7)
      → OnlyChanges key p p'
      → OnlyChanges key p' p''
      → OnlyChanges key p p''
  OnlyChanges-trans key p p' p'' a b = (λ k n. b.0 k n ∙ a.0 k n, b.1 ∙ a.1)

  store-OnlyChanges :
      (key : String) (conn : Connection) (w : World) (p : S7Manager s7)
      → OnlyChanges key p (record p { connections = Dict.insert key conn p.connections; world = w })
  store-OnlyChanges key conn w p = (λ k n. rw (Dict.get-insert k key conn p.connections, n), refl)

  forget-OnlyChanges :
      (key : String) (w : World) (p : S7Manager s7)
      → OnlyChanges key p (record p { connections = Dict.remove key p.connections; world = w })
  forget-OnlyChanges key w p = (λ k n. rw (Dict.get-remove k key p.connections, n), refl)

  connected-OnlyChanges :
      (key : String) (r : Result Connection Error × World) (p : S7Manager s7)
      → OnlyChanges key p (connected key r p).1
  unfolding connected
  connected-OnlyChanges key (ok conn, w) p = store-OnlyChanges key conn w p
  connected-OnlyChanges key (err e, w) p = (λ k n. refl, refl)

  connect_with-OnlyChanges :
      (o : Option Connection) (host : String) (port : ℕ) (p : S7Manager s7)
      → OnlyChanges (key_of host port) p (connect_with o host port p).1
  unfolding connect_with connect_fresh
  connect_with-OnlyChanges none host port p = connected-OnlyChanges (key_of host port) _ p
  connect_with-OnlyChanges (some conn) host port p = elim (Bool-cases (s7.is_connected conn)) [
    | inl alive ↦ rw alive (λ k n. refl, refl)
    | inr dead ↦ rw dead (connected-OnlyChanges (key_of host port) _ p)
  ]

  read_with-OnlyChanges :
      (key : String) (db offset size : ℕ) (r : Result Connection Error × S7Manager s7)
      → OnlyChanges key r.1 (read_with key db offset size r).1
  unfolding read_with settle
  read_with-OnlyChanges key db offset size (ok conn, p) = store-OnlyChanges key _ p.world p
  read_with-OnlyChanges key db offset size (err e, p) = (λ k n. refl, refl)

  write_with-OnlyChanges :
      (key : String) (db offset : ℕ) (bytes : List ℕ) (r : Result Connection Error × S7Manager s7)
      → OnlyChanges key r.1 (write_with key db offset bytes r).1
  unfolding write_with settle
  write_with-OnlyChanges key db offset bytes (ok conn, p) = store-OnlyChanges key _ p.world p
  write_with-OnlyChanges key db offset bytes (err e, p) = (λ k n. refl, refl)

  probed-OnlyChanges :
      (key : String) (start : ℕ) (r : Result (List ℕ) String) (conn : Connection) (w : World)
      (p : S7Manager s7)
      → OnlyChanges key p (probed key start (r, conn, w) p).1
  unfolding probed
  probed-OnlyChanges key start (ok bytes) conn w p = store-OnlyChanges key conn w p
  probed-OnlyChanges key start (err e) conn w p = forget-OnlyChanges key w p

  test_with-OnlyChanges :
      (key : String) (start : ℕ) (r : Result Connection Error × S7Manager s7)
      → OnlyChanges key r.1 (test_with key start r).1
  unfolding test_with
  test_with-OnlyChanges key start (ok conn, p) = probed-OnlyChanges key start _ _ _ p
  test_with-OnlyChanges key start (err e, p) = forget-OnlyChanges key p.world p

  -- A read, a write and a test of one PLC, whatever comes of them, leave the connections of all other
  -- PLCs in the pool and the list of PLCs as they were.
  pub operations-OnlyChange :
      (host : String) (port db offset size : ℕ) (bytes : List ℕ) (p : S7Manager s7)
      → OnlyChanges (key_of host port) p (read_bytes host port db offset size p).1
        × OnlyChanges (key_of host port) p (write_bytes host port db offset bytes p).1
        × OnlyChanges (key_of host port) p (test_connection host port p).1
  unfolding read_bytes write_bytes test_connection connect
  operations-OnlyChange host port db offset size bytes p =
      let key = key_of host port in
      let pooled = Dict.get key p.connections in
      let opened = connect_with pooled host port p in
      let reached = connect_with-OnlyChanges pooled host port p in
      let started : S7Manager s7 = record p { world = (s7.now p.world).1 } in
      let tested = connect_with pooled host port started in
      (
        OnlyChanges-trans key p opened.1 (read_with key db offset size opened).1 reached
            (read_with-OnlyChanges key db offset size opened),
        OnlyChanges-trans key p opened.1 (write_with key db offset bytes opened).1 reached
            (write_with-OnlyChanges key db offset bytes opened),
        OnlyChanges-trans key p tested.1 (test_with key (s7.now p.world).0 tested).1
            (connect_with-OnlyChanges pooled host port started)
            (test_with-OnlyChanges key (s7.now p.world).0 tested),
      )

  -- Without a connection that is alive, a read whose connection attempt fails has the error of the
  -- attempt, and leaves the pool as it was.
  pub read_bytes-refused :
      (host : String) (port db offset size : ℕ) (p : S7Manager s7) (e : Error) (w : World)
      → ((conn : Connection)
          → Dict.get (key_of host port) p.connections ≡ some conn
          → s7.is_connected conn ≡ false)
      → s7.connect (s7.new host port) p.world ≡ (err e, w)
      → read_bytes host port db offset size p ≡ (err e, record p { world = w })
  unfolding read_bytes connect connect_with connect_fresh connected read_with
  read_bytes-refused host port db offset size p e w dead refused =
      elim (Option-cases (Dict.get (key_of host port) p.connections)) [
        | inl missing ↦ simp (missing, refused) refl
        | inr found ↦ simp (found.1, dead found.0 found.1, refused) refl
      ]
