-- ===== src/Processor/Responses.antt =====
-- What a response says of its command.
use filling_pilot_edge_rs.Common.{ℕ, ◌≡◌, refl, String, Bool, true, false, none, some, List}
use filling_pilot_edge_rs.Error.{Error, Result, ok, err}
use filling_pilot_edge_rs.S7.Crate.{S7Crate}
use filling_pilot_edge_rs.S7.Pool.{S7Manager, read_bytes, write_bytes}
use filling_pilot_edge_rs.S7.Types.{ReadRequest, ReadResponse, WriteRequest, WriteResponse}
use filling_pilot_edge_rs.Processor.{
  HexCrate, read_response, handle_read, write_response, write_outcome, write_decoded, handle_write,
}

abbrev pub is_ok : {A : Type 0} → Result A Error → Bool
is_ok (ok a) = true
is_ok (err e) = false

-- The response names the request, the PLC and the place of the command.
abbrev pub Echoes : ReadRequest → ReadResponse → Type 0
Echoes q a =
    (a.request_id ≡ q.request_id)
    × (a.plc_id ≡ q.plc_id)
    × (a.ip ≡ q.ip)
    × (a.port ≡ q.port)
    × (a.db_index ≡ q.db_index)
    × (a.offset ≡ q.offset)

abbrev pub EchoesWrite : WriteRequest → WriteResponse → Type 0
EchoesWrite q a =
    (a.request_id ≡ q.request_id)
    × (a.plc_id ≡ q.plc_id)
    × (a.ip ≡ q.ip)
    × (a.port ≡ q.port)
    × (a.db_index ≡ q.db_index)
    × (a.offset ≡ q.offset)

-- What comes of a write command, with the text decoded from hexadecimal.
abbrev pub Writes :
    {s7 : S7Crate}
    → WriteRequest
    → Result (List ℕ) String
    → S7Manager s7
    → WriteResponse × S7Manager s7
    → Type 0
Writes q (err e) p (a, p') = (a.success ≡ false) × (p' ≡ p)
Writes q (ok bytes) p (a, p') =
    let call = write_bytes q.ip q.port q.db_index q.offset bytes p in
    (a.success ≡ is_ok call.0) × (p' ≡ call.1)

module _ (hex : HexCrate) where
  -- A response that reports success has the bytes in hexadecimal; one that does not has the error.
  abbrev pub Tells : Result (List ℕ) Error → ReadResponse → Type 0
  Tells (ok bytes) a = (a.success ≡ true) × (a.hex_content ≡ some (hex.encode bytes))
  Tells (err e) a = (a.success ≡ false) × (a.hex_content ≡ none) × (a.message ≡ hex.error_text e)

  read_response-Tells :
      (q : ReadRequest) (r : Result (List ℕ) Error)
      → Echoes q (read_response hex q r) × Tells r (read_response hex q r)
  unfolding read_response
  read_response-Tells q (ok bytes) = ((refl, refl, refl, refl, refl, refl), (refl, refl))
  read_response-Tells q (err e) = ((refl, refl, refl, refl, refl, refl), (refl, refl, refl))

  -- A read command is one read of the PLC that it names, at its place: the response names the command,
  -- and reports success, with the bytes, exactly if the read succeeds.
  pub handle_read-Tells :
      {s7 : S7Crate} (q : ReadRequest) (p : S7Manager s7)
      → let call = read_bytes q.ip q.port q.db_index q.offset q.size p in
        let answer = handle_read hex q p in
        Echoes q answer.0 × Tells call.0 answer.0 × (answer.1 ≡ call.1)
  unfolding handle_read
  handle_read-Tells q p =
      let r = (read_bytes q.ip q.port q.db_index q.offset q.size p).0 in
      let told = read_response-Tells q r in (told.0, told.1, refl)

  write_outcome-success :
      (q : WriteRequest) (r : Result (Unit {0}) Error)
      → EchoesWrite q (write_outcome hex q r) × ((write_outcome hex q r).success ≡ is_ok r)
  unfolding write_outcome write_response
  write_outcome-success q (ok done) = ((refl, refl, refl, refl, refl, refl), refl)
  write_outcome-success q (err e) = ((refl, refl, refl, refl, refl, refl), refl)

  write_decoded-Writes :
      {s7 : S7Crate} (q : WriteRequest) (r : Result (List ℕ) String) (p : S7Manager s7)
      → EchoesWrite q (write_decoded hex q r p).0 × Writes q r p (write_decoded hex q r p)
  unfolding write_decoded write_response
  write_decoded-Writes q (err e) p = ((refl, refl, refl, refl, refl, refl), (refl, refl))
  write_decoded-Writes q (ok bytes) p =
      let r = (write_bytes q.ip q.port q.db_index q.offset bytes p).0 in
      let told = write_outcome-success q r in (told.0, (told.1, refl))

  -- A write command whose text is not hexadecimal does not touch the PLC, and fails; another is one
  -- write of its bytes, and reports success exactly if the write succeeds. The response names the
  -- command.
  pub handle_write-Writes :
      {s7 : S7Crate} (q : WriteRequest) (p : S7Manager s7)
      → EchoesWrite q (handle_write hex q p).0
        × Writes q (hex.decode q.hex_content) p (handle_write hex q p)
  unfolding handle_write
  handle_write-Writes q p = write_decoded-Writes q (hex.decode q.hex_content) p
