-- ===== src/Processor.antt =====
-- The processors of read and write commands (src/processor), and the status cache. The module of the
-- write processor is not declared in src/processor/mod.rs; it is modelled as it is written.
use Prim.Native.String.{◌++◌ as ◌<>◌}
use filling_pilot_edge_rs.Common.{ℕ, String, Bool, true, false, Option, none, some, List}
use filling_pilot_edge_rs.Common.Dict
use filling_pilot_edge_rs.Common.Dict.{Dict}
use filling_pilot_edge_rs.Common.Eq.{String_eq}
use filling_pilot_edge_rs.Error.{Error, Result, ok, err}
use filling_pilot_edge_rs.S7.Crate.{S7Crate}
use filling_pilot_edge_rs.S7.Pool.{S7Manager, read_bytes, write_bytes}
use filling_pilot_edge_rs.S7.Types.{ReadRequest, ReadResponse, WriteRequest, WriteResponse}
pub mod Responses
pub mod Reports

-- What the processors use of the hex crate, and of the text of an error.
pub record HexCrate : Type 0 where
  pub encode : List ℕ → String
  pub decode : String → Result (List ℕ) String
  pub error_text : Error → String

module _ (hex : HexCrate) where
  -- The response to a request, with the result of the read.
  unfoldable pub read_response : ReadRequest → Result (List ℕ) Error → ReadResponse
  read_response q (ok bytes) = record {
    request_id = q.request_id;
    plc_id = q.plc_id;
    ip = q.ip;
    port = q.port;
    db_index = q.db_index;
    offset = q.offset;
    success = true;
    message = "OK";
    hex_content = some (hex.encode bytes);
  }
  read_response q (err e) = record {
    request_id = q.request_id;
    plc_id = q.plc_id;
    ip = q.ip;
    port = q.port;
    db_index = q.db_index;
    offset = q.offset;
    success = false;
    message = hex.error_text e;
    hex_content = none;
  }

  -- `ReadProcessor::handle`; it never returns an error
  unfoldable pub handle_read :
      {s7 : S7Crate} → ReadRequest → S7Manager s7 → ReadResponse × S7Manager s7
  unfolding read_response
  handle_read q p =
      let (result, p') = read_bytes q.ip q.port q.db_index q.offset q.size p in
      (read_response q result, p')

  unfoldable pub write_response : WriteRequest → Bool → String → WriteResponse
  write_response q done text = record {
    request_id = q.request_id;
    plc_id = q.plc_id;
    ip = q.ip;
    port = q.port;
    db_index = q.db_index;
    offset = q.offset;
    success = done;
    message = text;
  }

  unfoldable pub write_outcome : WriteRequest → Result (Unit {0}) Error → WriteResponse
  unfolding write_response
  write_outcome q (ok done) = write_response q true "OK"
  write_outcome q (err e) = write_response q false (hex.error_text e)

  -- The write of what `hex::decode` gives.
  unfoldable pub write_decoded :
      {s7 : S7Crate}
      → WriteRequest
      → Result (List ℕ) String
      → S7Manager s7
      → WriteResponse × S7Manager s7
  unfolding write_outcome write_response
  write_decoded q (err e) p = (write_response q false ("Invalid hex: " <> e), p)
  write_decoded q (ok bytes) p =
      let (result, p') = write_bytes q.ip q.port q.db_index q.offset bytes p in
      (write_outcome q result, p')

  -- `WriteProcessor::handle`; it never returns an error
  unfoldable pub handle_write :
      {s7 : S7Crate} → WriteRequest → S7Manager s7 → WriteResponse × S7Manager s7
  unfolding write_decoded
  handle_write q p = write_decoded q (hex.decode q.hex_content) p

-- `StatusCache::update`
unfoldable pub update_cached : String → String → Dict String String → Dict String String
update_cached station_id status cache = Dict.insert station_id status cache
