-- ===== src/Tests/Tree.antt =====
-- JSON as a tree, with integers for numbers: the interface `Json` can be met.
use filling_pilot_edge_rs.Common.{
  arith, ◌<◌, ◌^◌, ltb, if◌then◌else◌, if-true, ℕ, ◌≡◌, refl, ap, Bool, String, Option, none, some,
  List, [], ◌∷◌,
}
use filling_pilot_edge_rs.Common.Dict.{Dict}
use filling_pilot_edge_rs.Common.Int.{ℤ, pos, negsuc}
use filling_pilot_edge_rs.Json.{Json, View, null, bool, number, string, array, object}

mutual
  pub data Tree : Type 0 where
    nothing : Tree
    flag : Bool → Tree
    integer : ℤ → Tree
    text : String → Tree
    sequence : Trees → Tree
    fields : Fields → Tree

  pub data Trees : Type 0 where
    nil : Trees
    cons : Tree → Trees → Trees

  pub data Fields : Type 0 where
    no_field : Fields
    field : String → Tree → Fields → Fields

abbrev from_list : List Tree → Trees
from_list [] = nil
from_list (t ∷ ts) = cons t (from_list ts)

abbrev to_list : Trees → List Tree
to_list nil = []
to_list (cons t ts) = t ∷ to_list ts

abbrev pub from_dict : Dict String Tree → Fields
from_dict [] = no_field
from_dict ((k, t) ∷ ts) = field k t (from_dict ts)

abbrev to_dict : Fields → Dict String Tree
to_dict no_field = []
to_dict (field k t ts) = (k, t) ∷ to_dict ts

to_list-from_list : (ts : List Tree) → to_list (from_list ts) ≡ ts
to_list-from_list [] = refl
to_list-from_list (t ∷ ts) = ap (◌∷◌ t) (to_list-from_list ts)

to_dict-from_dict : (ts : Dict String Tree) → to_dict (from_dict ts) ≡ ts
to_dict-from_dict [] = refl
to_dict-from_dict ((k, t) ∷ ts) = ap (◌∷◌ (k, t)) (to_dict-from_dict ts)

abbrev view_tree : Tree → View Tree ℤ
view_tree nothing = null
view_tree (flag b) = bool b
view_tree (integer n) = number n
view_tree (text s) = string s
view_tree (sequence ts) = array (to_list ts)
view_tree (fields ts) = object (to_dict ts)

abbrev pub make_tree : View Tree ℤ → Tree
make_tree null = nothing
make_tree (bool b) = flag b
make_tree (number n) = integer n
make_tree (string s) = text s
make_tree (array ts) = sequence (from_list ts)
make_tree (object ts) = fields (from_dict ts)

pub view-make_tree : (v : View Tree ℤ) → view_tree (make_tree v) ≡ v
view-make_tree null = refl
view-make_tree (bool b) = refl
view-make_tree (number n) = refl
view-make_tree (string s) = refl
view-make_tree (array ts) = ap array (to_list-from_list ts)
view-make_tree (object ts) = ap object (to_dict-from_dict ts)

abbrev pub natural : ℤ → Option ℕ
natural (pos n) = if ltb n (2 ^ 64) then some n else none
natural (negsuc n) = none

pub natural-lt : (z : ℤ) (k : ℕ) → natural z ≡ some k → k < 2 ^ 64
natural-lt (pos n) k h = ground arith
natural-lt (negsuc n) k h = absurd (cc)

pub natural-pos : (n : ℕ) → n < 2 ^ 64 → natural (pos n) ≡ some n
natural-pos n h = if-true (ltb n (2 ^ 64)) (some n) none (ground arith)

abbrev pub tree_json : Json
tree_json = record {
  Value = Tree;
  Number = ℤ;
  F64 = ℤ;
  view = view_tree;
  make = make_tree;
  view-make = view-make_tree;
  to_text = λ _. "json";
  as_u64 = natural;
  as_i64 = λ z. some z;
  as_f64 = λ z. some z;
  from_u64 = pos;
  from_i64 = λ z. z;
  from_f64 = λ z. some z;
  as_u64-from_u64 = natural-pos;
  as_u64-lt = natural-lt;
  as_i64-from_i64 = λ z h. refl;
}
