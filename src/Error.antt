-- ===== src/Error.antt =====
-- The node's error type (src/error.rs).
use Prim.Native.String.{◌++◌ as ◌<>◌}
use filling_pilot_edge_rs.Common.{String, ◌≡◌, refl}

pub data ErrorKind : Type 0 where
  config s7 io codec other : ErrorKind

pub record Error : Type 0 where
  pub kind : ErrorKind
  pub message : String

-- `std::result::Result<T, Error>`, and results with another error type.
pub data Result {ℓ κ} (A : Type ℓ) (E : Type κ) : Type (ℓ ⊔ κ) where
  ok : A → Result A E
  err : E → Result A E

-- The constructor functions of `impl Error`.
abbrev pub config_error : String → Error
config_error m = record { kind = ErrorKind.config; message = m }

abbrev pub s7_error : String → Error
s7_error m = record { kind = ErrorKind.s7; message = m }

abbrev pub io_error : String → Error
io_error m = record { kind = ErrorKind.io; message = m }

abbrev pub codec_error : String → Error
codec_error m = record { kind = ErrorKind.codec; message = m }

abbrev pub other_error : String → Error
other_error m = record { kind = ErrorKind.other; message = m }

-- The conversions of `?`, from the text of the other error.
abbrev pub from_io : String → Error
from_io e = io_error e

abbrev pub from_json : String → Error
from_json e = config_error ("JSON: " <> e)

abbrev pub from_text : String → Error
from_text s = other_error s

abbrev pub from_s7 : String → Error
from_s7 e = s7_error e

-- `?` on a result.
infixl 5 ◌>>=◌
abbrev pub ◌>>=◌ {ℓ κ μ} :
    {A : Type ℓ} {B : Type κ} {E : Type μ} → Result A E → (A → Result B E) → Result B E
ok a >>= f = f a
err e >>= f = err e

-- A chain that gives a result has gone through its first part.
pub then_ok {ℓ κ μ} :
    {A : Type ℓ} {B : Type κ} {E : Type μ} (r : Result A E) (g : A → Result B E) (b : B)
    → (r >>= g) ≡ ok b
    → (a : A) × (r ≡ ok a) × (g a ≡ ok b)
then_ok (ok a) g b h = (a, refl, h)
then_ok (err e) g b h = absurd (cc)
