-- ===== src/Tests/Disk.antt =====
-- The files of the node on a disk that maps paths to texts.
use filling_pilot_edge_rs.Common.{
  ◌≡◌, refl, String, Bool, true, false, Option, none, some, is_none, if◌then◌else◌, eq_iff,
}
use filling_pilot_edge_rs.Common.Dict
use filling_pilot_edge_rs.Common.Dict.{Dict}
use filling_pilot_edge_rs.Common.Eq.{String_eq}
use filling_pilot_edge_rs.Error.{Result, ok, err}
use filling_pilot_edge_rs.Files.{Files}
use filling_pilot_edge_rs.Tests.Tree.{Tree}

abbrev pub text_or : Option String → Result String String
text_or none = err "No such file"
text_or (some s) = ok s

abbrev pub there : Option String → Bool
there o = if is_none o then false else true

get_written :
    (path s : String) (d : Dict String String) → Dict.get path (Dict.insert path s d) ≡ some s
get_written path s d = rw (Dict.get-insert path path s d, (eq_iff path path).1 refl) refl

pub exists-written :
    (path s : String) (d : Dict String String)
    → (◌≡◌ {A = Result (Unit {0}) String} (ok tt) (ok tt))
    → there (Dict.get path (Dict.insert path s d)) ≡ true
exists-written path s d h = rw (get_written path s d) refl

pub read-written :
    (path s : String) (d : Dict String String)
    → (◌≡◌ {A = Result (Unit {0}) String} (ok tt) (ok tt))
    → text_or (Dict.get path (Dict.insert path s d)) ≡ ok s
read-written path s d h = rw (get_written path s d) refl

-- Files in which every text stands for one value.
abbrev pub files_of : Tree → Files Tree
files_of value = record {
  Disk = Dict String String;
  home_dir = some "/root";
  exists = λ path d. there (Dict.get path d);
  read_to_string = λ path d. text_or (Dict.get path d);
  create_dir_all = λ path d. d;
  write = λ path s d. (ok tt, Dict.insert path s d);
  write-exists = exists-written;
  write-read_to_string = read-written;
  to_string_pretty = λ v. ok "json";
  from_str = λ s. some value;
}
