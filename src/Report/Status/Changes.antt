-- ===== src/Report/Status/Changes.antt =====
-- When a status is sent: on a change, and again after thirty seconds.
use filling_pilot_edge_rs.Common.{
  ℕ, ◌+◌, ◌≤◌, ◌<◌, ◌^◌, ◌≡◌, ◌≢◌, ◌↔◌, ◌⊎◌, refl, Bool, true, false, Option, none, some, List, [],
  ◌∷◌, ◌++◌, arith, String, eq_iff,
}
use filling_pilot_edge_rs.Common.Dict
use filling_pilot_edge_rs.Common.Eq.{String_eq}
use filling_pilot_edge_rs.Report.Station.{FillStation}
use filling_pilot_edge_rs.Report.Crates.{Crates}
use filling_pilot_edge_rs.Report.Cache.{ReportCache}
use filling_pilot_edge_rs.Report.Status.{should_send, update_status}

-- The time of the last message is not ahead of the clock.
abbrev pub NotAhead : Option ℕ → ℕ → Type 0
NotAhead none now = Unit
NotAhead (some t) now = t ≤ now

abbrev pub IsOld : Option ℕ → ℕ → Type 0
IsOld none now = Unit
IsOld (some t) now = t + 30000 < now

-- As long as the clock has not gone back, a status is sent exactly when it differs from the cached
-- one, or no status of the station was sent, or the last one was sent more than thirty seconds ago.
pub should_send_iff :
    (previous : Option String) (status : String) (last_sent : Option ℕ) (now : ℕ)
    → now < 2 ^ 64
    → NotAhead last_sent now
    → (should_send previous status last_sent now ≡ true)
      ↔ ((previous ≢ some status) ⊎ IsOld last_sent now)
unfolding should_send
should_send_iff none status none now h a = ground arith
should_send_iff none status (some t) now h a = ground arith
should_send_iff (some p) status none now h a = ground arith
should_send_iff (some p) status (some t) now h a = ground (arith, eq_iff p status)

module _ (crates : Crates) (station : FillStation) (bytes : List ℕ) where
  abbrev status : String
  status = crates.hex_encode bytes

  abbrev pub wants_send : ReportCache → ℕ → Bool
  wants_send c now =
      should_send (Dict.get station.id c.status_cache) status
        (Dict.get station.id c.last_status_sent_time) now

  abbrev pub sent_state : ReportCache → ℕ → ReportCache
  sent_state c now = record c {
    status_cache = Dict.insert station.id status c.status_cache;
    last_status_sent_time = Dict.insert station.id now c.last_status_sent_time;
  }

  abbrev silent_state : ReportCache → ReportCache
  silent_state c = record c { status_cache = Dict.insert station.id status c.status_cache }

  update_status-sent :
      (now : ℕ) (out : List (String × String)) (c : ReportCache)
      → wants_send c now ≡ true
      → update_status crates now station bytes (out, c)
        ≡ (out ++ ((station.id, status) ∷ []), sent_state c now)
  unfolding update_status
  update_status-sent now out c h = rw h

  update_status-silent :
      (now : ℕ) (out : List (String × String)) (c : ReportCache)
      → wants_send c now ≡ false
      → update_status crates now station bytes (out, c) ≡ (out, silent_state c)
  unfolding update_status
  update_status-silent now out c h = rw h

  silent_after_sent :
      (t now : ℕ) (c : ReportCache)
      → t ≤ now
      → now ≤ t + 30000
      → now < 2 ^ 64
      → wants_send (sent_state c t) now ≡ false
  silent_after_sent t now c lo hi h =
      rw
        (
          Dict.get-insert station.id station.id status c.status_cache,
          Dict.get-insert station.id station.id t c.last_status_sent_time,
        )
        (unfold should_send in ground (arith, eq_iff station.id station.id, eq_iff status status))

  -- A station whose block has not changed is silent for thirty seconds: after a read that is sent, a
  -- second read of the same block, at most thirty seconds later, sends nothing and leaves the time
  -- of the last message.
  pub unchanged_status_is_silent :
      (t now : ℕ) (out : List (String × String)) (c : ReportCache)
      → t ≤ now
      → now ≤ t + 30000
      → now < 2 ^ 64
      → wants_send c t ≡ true
      → let s = update_status crates t station bytes (out, c) in
        let s' = update_status crates now station bytes s in
        (s.0 ≡ out ++ ((station.id, crates.hex_encode bytes) ∷ []))
        × (s'.0 ≡ s.0)
        × (s'.1.last_status_sent_time ≡ s.1.last_status_sent_time)
  unchanged_status_is_silent t now out c lo hi h fresh =
      rw
        (
          update_status-sent t out c fresh,
          update_status-silent now _ (sent_state c t) (silent_after_sent t now c lo hi h),
        )
        (refl, refl, refl)
