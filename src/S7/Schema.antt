-- ===== src/S7/Schema.antt =====
-- Reads and writes of whole data blocks by their definition.
use filling_pilot_edge_rs.Common.{ℕ, ◌%◌, ◌≡◌, refl, String, Option, none, some, List, All, length}
use filling_pilot_edge_rs.Common.Dict.{Dict}
use filling_pilot_edge_rs.Error.{Error, Result, ok, err}
use filling_pilot_edge_rs.Codec.Crates.{Crates}
use filling_pilot_edge_rs.Codec.Property.{DataBlockDefinition}
use filling_pilot_edge_rs.Codec.Block.{from_bytes, encode_block}
use filling_pilot_edge_rs.Codec.Block.Encoding.{IsFixed, Completes, encode_block-Completes}
use filling_pilot_edge_rs.S7.Crate.{S7Crate}
use filling_pilot_edge_rs.S7.Pool.{S7Manager, read_bytes, write_bytes}

module _ (crates : Crates) where
  open crates use {json}
  open json use {Value}

  -- `none` is the panic of the decoder.
  abbrev decoded_block : Option (Dict String Value) → Option (Result (Dict String Value) Error)
  decoded_block none = none
  decoded_block (some values) = some (ok values)

  unfoldable pub decode_read :
      DataBlockDefinition → Result (List ℕ) Error → Option (Result (Dict String Value) Error)
  decode_read d (ok bytes) = decoded_block (from_bytes crates d bytes)
  decode_read d (err e) = some (err e)

  unfoldable pub read_data_block :
      {s7 : S7Crate}
      → String
      → ℕ
      → DataBlockDefinition
      → S7Manager s7
      → Option (Result (Dict String Value) Error) × S7Manager s7
  unfolding decode_read
  read_data_block host port d p =
      let (result, p') = read_bytes host port d.db_number 0 (d.total_size % 65536) p in
      (decode_read d result, p')

  -- `none` is the panic of the encoder, which never returns an error.
  unfoldable pub write_encoded :
      {s7 : S7Crate}
      → Option (List ℕ)
      → String
      → ℕ
      → DataBlockDefinition
      → S7Manager s7
      → Option (Result (Unit {0}) Error × S7Manager s7)
  write_encoded none host port d p = none
  write_encoded (some bytes) host port d p = some (write_bytes host port d.db_number 0 bytes p)

  unfoldable pub write_data_block :
      {s7 : S7Crate}
      → String
      → ℕ
      → DataBlockDefinition
      → Dict String Value
      → S7Manager s7
      → Option (Result (Unit {0}) Error × S7Manager s7)
  unfolding write_encoded
  write_data_block host port d values p = write_encoded (encode_block crates d values) host port d p

  write_encoded-Completes :
      {s7 : S7Crate} (o : Option (List ℕ)) (host : String) (port : ℕ) (d : DataBlockDefinition)
      (p : S7Manager s7)
      → Completes d.total_size o
      → (bytes : List ℕ) × (o ≡ some bytes)
        × (length bytes ≡ d.total_size)
        × (write_encoded o host port d p ≡ some (write_bytes host port d.db_number 0 bytes p))
  unfolding write_encoded
  write_encoded-Completes none host port d p h = absurd h
  write_encoded-Completes (some bytes) host port d p h = (bytes, refl, h, refl)

  -- If every property that has a codec is as long as its codec writes, and all its items end below 2 ^ 64,
  -- a block of any values is written without a panic, by one write of its encoding, whose length is the total size of the definition, at
  -- the start of the block.
  pub write_data_block-Completes :
      {s7 : S7Crate} (host : String) (port : ℕ) (d : DataBlockDefinition)
      (values : Dict String Value) (p : S7Manager s7)
      → All (IsFixed crates) d.properties
      → (bytes : List ℕ) × (encode_block crates d values ≡ some bytes)
        × (length bytes ≡ d.total_size)
        × (write_data_block host port d values p
            ≡ some (write_bytes host port d.db_number 0 bytes p))
  unfolding write_data_block
  write_data_block-Completes host port d values p f =
      write_encoded-Completes (encode_block crates d values) host port d p
        (encode_block-Completes crates d values f)
