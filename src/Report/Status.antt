-- ===== src/Report/Status.antt =====
-- Status reads of the report cache (src/report/cache.rs: `read_and_send_status_direct`,
-- `get_all_statuses`) and the status cache of the command processors (src/processor/status.rs).
pub mod Changes
pub mod Caches
use filling_pilot_edge_rs.Common.{
  ℕ, ◌+◌, ◌-◌, ◌%◌, String, Bool, true, false, not, ◌||◌, Option, none, some, List, [], ◌∷◌, ◌++◌,
  ltb, str_eq, if◌then◌else◌, is_none,
}
use filling_pilot_edge_rs.Common.Int.{pattern_of}
use filling_pilot_edge_rs.Common.Dict
use filling_pilot_edge_rs.Common.Dict.{Dict}
use filling_pilot_edge_rs.Common.Eq.{String_eq}
use filling_pilot_edge_rs.Error.{Error, Result, ok, err}
use filling_pilot_edge_rs.Io.{Io}
use filling_pilot_edge_rs.Report.Station.{FillStation}
use filling_pilot_edge_rs.Report.Crates.{Crates}
use filling_pilot_edge_rs.Report.Cache.{ReportCache, le_zero, u16_mod}

-- `now - last` of two u64 in a release build, which wraps
abbrev pub wrapping_sub : ℕ → ℕ → ℕ
wrapping_sub a b = (a + 18446744073709551616 - b) % 18446744073709551616

-- `previous.as_ref() != Some(&status)`
abbrev differs : Option String → String → Bool
differs none status = true
differs (some p) status = not (str_eq p status)

-- `last_sent_time.is_none() || now - last_sent_time.unwrap() > 30_000`
abbrev is_due : Option ℕ → ℕ → Bool
is_due none now = true
is_due (some t) now = ltb 30000 (wrapping_sub now t)

unfoldable pub should_send : Option String → String → Option ℕ → ℕ → Bool
should_send previous status last_sent_time now =
    is_none previous || differs previous status || is_due last_sent_time now

-- The body of the loop behind a successful read: the changed list and the cache.
unfoldable pub update_status :
    Crates
    → ℕ
    → FillStation
    → List ℕ
    → List (String × String) × ReportCache
    → List (String × String) × ReportCache
unfolding should_send
update_status crates now station status_data (changed_list, c) =
    let status = crates.hex_encode status_data in
    let previous = Dict.get station.id c.status_cache in
    let cached = record c { status_cache = Dict.insert station.id status c.status_cache } in
    let last_sent_time = Dict.get station.id c.last_status_sent_time in
    if should_send previous status last_sent_time now
    then (
      changed_list ++ ((station.id, status) ∷ []),
      record cached { last_status_sent_time = Dict.insert station.id now c.last_status_sent_time },
    )
    else (changed_list, cached)

abbrev StatusRound : Io → Type 0
StatusRound io = io.World × (List (String × String) × ReportCache)

module _ (io : Io) (crates : Crates) where
  open io use {World, read_bytes, now_millis}

  -- the `match` on the result of the read; an error is logged and skipped
  unfoldable pub status_result :
      ℕ → FillStation → Result (List ℕ) Error → StatusRound io → StatusRound io
  status_result now station (err e) s = s
  status_result now station (ok status_data) (w, s) =
      (w, update_status crates now station status_data s)

  -- the body of the loop
  unfoldable pub read_status : ℕ → FillStation → StatusRound io → StatusRound io
  unfolding status_result
  read_status now station (w, s) =
      if le_zero station.status_db
      then (w, s)
      else let (result, w') =
          read_bytes station.ip station.port (pattern_of u16_mod station.status_db) 0
            (station.status_db_size % u16_mod) w in
        status_result now station result (w', s)

  unfoldable pub read_statuses : ℕ → List FillStation → StatusRound io → StatusRound io
  unfolding read_status
  read_statuses now [] s = s
  read_statuses now (station ∷ stations) s = read_statuses now stations (read_status now station s)

  -- `if changed_list.is_empty() { Vec::new() } else { vec![("status", msg)] }`
  abbrev status_messages : List (String × String) → List (String × String)
  status_messages [] = []
  status_messages (x ∷ xs) = ("status", crates.status_json (x ∷ xs)) ∷ []

  unfoldable pub read_and_send_status_direct :
      World × ReportCache → List (String × String) × World × ReportCache
  read_and_send_status_direct (w, c) =
      let (now, w') = now_millis w in
      let (w'', round) = read_statuses now (Dict.keys c.caches) (w', ([], c)) in
      let (changed_list, c') = round in (status_messages changed_list, w'', c')

-- The pairs of `fillStation` and `status` that the "status" command answers with.
unfoldable pub get_all_statuses : ReportCache → List (String × String)
get_all_statuses c = c.status_cache
