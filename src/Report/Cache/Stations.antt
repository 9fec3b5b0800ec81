-- ===== src/Report/Cache/Stations.antt =====
-- A new configuration: which stations the cache has afterwards, and with which reports.
use filling_pilot_edge_rs.Common.{
  ◌≡◌, refl, Bool, ◌&&◌, none, some, List, [], ◌∷◌, arith, filterb, if◌then◌else◌, unwrap_or,
}
use filling_pilot_edge_rs.Common.Dict
use filling_pilot_edge_rs.Common.Dict.{contains}
use filling_pilot_edge_rs.Report.Station.{FillStation, FillStation_eq, eq_correct}
use filling_pilot_edge_rs.Report.Cache.{
  Caches, to_set, difference, remove_all, add_all, update_fill_stations,
}

contains-filterb :
    (p : FillStation → Bool) (s : FillStation) (l : List FillStation)
    → contains s (filterb p l) ≡ (contains s l && p s)
contains-filterb p s [] = refl
contains-filterb p s (x ∷ l) = ground (arith, contains-filterb p s l, eq_correct s x)

contains-to_set : (s : FillStation) (l : List FillStation) → contains s (to_set l) ≡ contains s l
unfolding to_set
contains-to_set s [] = refl
contains-to_set s (x ∷ l) = ground (arith, contains-to_set s l, eq_correct s x, contains-to_set x l)

get-remove_all :
    (s : FillStation) (l : List FillStation) (c : Caches)
    → Dict.get s (remove_all l c) ≡ (if contains s l then none else Dict.get s c)
unfolding remove_all
get-remove_all s [] c = refl
get-remove_all s (x ∷ l) c =
    ground (arith, get-remove_all s l (Dict.remove x c), Dict.get-remove s x c)

get-add_all :
    (s : FillStation) (l : List FillStation) (c : Caches)
    → Dict.get s (add_all l c) ≡ (if contains s l then some [] else Dict.get s c)
unfolding add_all
get-add_all s [] c = refl
get-add_all s (x ∷ l) c =
    ground (arith, get-add_all s l (Dict.insert x [] c), Dict.get-insert s x [] c)

-- After a new configuration the cache holds exactly its stations: those it had keep their reports, and
-- the others start with none.
pub get-update_fill_stations :
    (s : FillStation) (stations : List FillStation) (c : Caches)
    → Dict.get s (update_fill_stations stations c)
      ≡ (if contains s stations then some (unwrap_or (Dict.get s c) []) else none)
unfolding update_fill_stations difference
get-update_fill_stations s stations c =
    rw (get-add_all, get-remove_all, contains-filterb, contains-filterb, contains-to_set)
      (ground (arith, Dict.contains-keys s c))
