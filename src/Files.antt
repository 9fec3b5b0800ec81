-- ===== src/Files.antt =====
-- The files under `~/.edge` in which the node keeps what it caches, and the runtimes that the threads
-- and tasks use to take a lock when they read them.
use Prim.Native.String.{◌++◌ as ◌<>◌}
use filling_pilot_edge_rs.Common.{
  ◌≡◌, refl, true, Bool, String, Option, none, some, unwrap_or, if◌then◌else◌,
}
use filling_pilot_edge_rs.Error.{Result, ok, err}

-- The file system (`std::fs`, `dirs::home_dir`), and the texts of JSON values (`serde_json`).
-- A write that succeeds leaves a file with the whole text.
pub record Files (Value : Type 0) : Type 1 where
  pub Disk : Type 0
  pub home_dir : Option String
  pub exists : String → Disk → Bool
  pub read_to_string : String → Disk → Result String String
  pub create_dir_all : String → Disk → Disk
  pub write : String → String → Disk → Result (Unit {0}) String × Disk
  pub write-exists :
      (path text : String) (d : Disk)
      → (write path text d).0 ≡ ok tt
      → exists path (write path text d).1 ≡ true
  pub write-read_to_string :
      (path text : String) (d : Disk)
      → (write path text d).0 ≡ ok tt
      → read_to_string path (write path text d).1 ≡ ok text
  pub to_string_pretty : Value → Result String String
  pub from_str : String → Option Value

-- A panic of `Runtime::block_on`: it must not be called on a thread that drives asynchronous tasks.
abbrev pub block_on {ℓ} : {A : Type ℓ} → Bool → A → Option A
block_on in_runtime a = if in_runtime then none else some a

abbrev pub ok_text : Result String String → Option String
ok_text (ok text) = some text
ok_text (err e) = none

module _ {Value : Type 0} (files : Files Value) where
  open files use {Disk}

  -- `PLCSerializeMetaFactory::cache_dir`, also of the reports
  abbrev pub cache_dir : String
  cache_dir = unwrap_or files.home_dir "." <> "/.edge"

  -- The text of a file, if it is there and can be read; an error is logged.
  unfoldable pub load_text : String → Disk → Option String
  load_text path d = if files.exists path d then ok_text (files.read_to_string path d) else none

  -- The directory is there.
  abbrev pub with_dir : Disk → Disk
  with_dir d = files.create_dir_all cache_dir d

  -- Writes a text; an error of serde or of the file system is logged.
  abbrev pub write_text : String → Result String String → Disk → Disk
  write_text path (ok text) d = (files.write path text d).1
  write_text path (err e) d = d

  unfoldable pub persist_value : String → Value → Disk → Disk
  persist_value path value d = write_text path (files.to_string_pretty value) (with_dir d)

  -- A text that stands for a value, and that is written to a file.
  pub record Persists (path : String) (value : Value) (d : Disk) : Type 0 where
    pub text : String
    pub printed : files.to_string_pretty value ≡ ok text
    pub parsed : files.from_str text ≡ some value
    pub succeeds : (files.write path text (with_dir d)).0 ≡ ok tt

  pub load_text-persist_value :
      (path : String) (value : Value) (d : Disk) (w : Persists path value d)
      → load_text path (persist_value path value d) ≡ some w.text
  unfolding load_text persist_value
  load_text-persist_value path value d w =
      rw
        (
          w.printed,
          files.write-exists path w.text (with_dir d) w.succeeds,
          files.write-read_to_string path w.text (with_dir d) w.succeeds,
        )
        refl
