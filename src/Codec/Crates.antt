-- ===== src/Codec/Crates.antt =====
-- What the codecs use of other crates and of Rust's floats and texts: serde_json, byteorder, chrono.
use filling_pilot_edge_rs.Common.{
  ℕ, ◌≤◌, ◌<◌, ◌^◌, ◌/◌, ◌≡◌, Bool, String, Option, List, length, take,
}
use filling_pilot_edge_rs.Common.Bytes.{from_be, to_be}
use filling_pilot_edge_rs.Common.Int.{ℤ, signed, pattern_of}
use filling_pilot_edge_rs.Error.{Result}
use filling_pilot_edge_rs.Json.{Json}

-- `BigEndian` of the byteorder crate, on numbers of n bytes. The documentation gives each as a shift
-- of bytes, the most significant first, and the signed ones as casts of the unsigned ones.
pub record ByteOrder : Type 0 where
  pub read_uint : ℕ → List ℕ → ℕ
  pub read_int : ℕ → List ℕ → ℤ
  pub write_uint : ℕ → ℕ → List ℕ
  pub write_int : ℕ → ℤ → List ℕ
  pub read_uint-eq :
      (n : ℕ) (bytes : List ℕ) → n ≤ length bytes → read_uint n bytes ≡ from_be 0 (take n bytes)
  pub read_int-eq :
      (n : ℕ) (bytes : List ℕ)
      → n ≤ length bytes
      → read_int n bytes ≡ signed (256 ^ n / 2) (from_be 0 (take n bytes))
  pub write_uint-eq : (n v : ℕ) → v < 256 ^ n → write_uint n v ≡ to_be n v
  pub write_int-eq : (n : ℕ) (z : ℤ) → write_int n z ≡ to_be n (pattern_of (256 ^ n) z)

pub record Crates : Type 1 where
  pub json : Json
  pub big_endian : ByteOrder
  -- f32 and f64, with the bytes of their bit patterns
  pub F32 : Type 0
  pub zero_f32 : F32
  pub zero_f64 : json.F64
  pub is_nonzero : json.F64 → Bool
  pub to_f32 : json.F64 → F32
  pub to_f64 : F32 → json.F64
  pub parse_f32 : String → Option F32
  pub parse_f64 : String → Result json.F64 String
  pub show_f64 : json.F64 → String
  pub read_f32 : List ℕ → F32
  pub read_f64 : List ℕ → json.F64
  pub write_f32 : F32 → List ℕ
  pub write_f64 : json.F64 → List ℕ
  pub length-write_f32 : (v : F32) → length (write_f32 v) ≡ 4
  pub length-write_f64 : (v : json.F64) → length (write_f64 v) ≡ 8
  -- texts
  pub to_lowercase : String → String
  pub into_bytes : String → List ℕ
  pub from_utf8 : List ℕ → Result String String
  pub from_utf16_lossy : List ℕ → String
  -- chrono
  pub Moment : Type 0
  pub parse_from_rfc3339 : String → Result Moment String
  pub year : Moment → ℤ
  pub month : Moment → ℕ
  pub day : Moment → ℕ
  pub hour : Moment → ℕ
  pub minute : Moment → ℕ
  pub second : Moment → ℕ
  pub num_days_from_sunday : Moment → ℕ
  pub timestamp_millis : Moment → ℤ
  pub from_timestamp : ℤ → ℕ → Option Moment
  pub format_utc : Moment → String  -- `format("%Y-%m-%dT%H:%M:%SZ")`
