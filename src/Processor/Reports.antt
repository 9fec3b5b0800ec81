-- ===== src/Processor/Reports.antt =====
-- The status cache, the version report, and the processors of upgrades and restarts (src/processor).
use filling_pilot_edge_rs.Common.{
  ◌≡◌, refl, String, Option, some, List, [], ◌∷◌, if◌then◌else◌, unwrap_or,
}
use filling_pilot_edge_rs.Common.Dict
use filling_pilot_edge_rs.Common.Dict.{Dict}
use filling_pilot_edge_rs.Common.Eq.{String_eq, ◌==◌}
use filling_pilot_edge_rs.Common.Maybe.{◌>>=◌}
use filling_pilot_edge_rs.Context.{Context}
use filling_pilot_edge_rs.Error.{Error, Result, ok}
use filling_pilot_edge_rs.Json.{Json, string, array, object}
use filling_pilot_edge_rs.Json.Derive.{read_all}
use filling_pilot_edge_rs.Json.Members.{str_at}
use filling_pilot_edge_rs.Processor.{update_cached}

-- `StatusCache`
abbrev pub StatusCache : Type 0
StatusCache = Dict String String

module _ (json : Json) where
  open json use {Value, make}

  abbrev pub status_entry : String → String → Value
  status_entry station status =
      make (object (("fillStation", make (string station)) ∷ ("status", make (string status)) ∷ []))

  unfoldable pub get_all : StatusCache → List Value
  get_all [] = []
  get_all ((station, status) ∷ cache) = status_entry station status ∷ get_all cache

  -- `StatusProcessor::get_status`, with the printer of serde_json
  unfoldable pub get_status : (Value → Option String) → StatusCache → String
  unfolding get_all
  get_status to_string cache = unwrap_or (to_string (make (array (get_all cache)))) "[]"

  -- A status as the receiver of the list reads it.
  abbrev pub read_entry : Value → Option (String × String)
  read_entry v = do
    station ← str_at json "fillStation" v
    status ← str_at json "status" v
    some (station, status)

pub record VersionReport : Type 0 where
  pub version : String
  pub os : String
  pub architecture : String

-- `VersionReport::new`, given the constants of the platform
abbrev pub version_report : String → String → Context → VersionReport
version_report os architecture ctx = record {
  version = ctx.version;
  os = os;
  architecture = architecture;
}

-- `UpgradeProcessor::handle`
abbrev pub handle_upgrade : Option String → Result (Unit {0}) Error
handle_upgrade url = ok tt

module _ (json : Json) where
  read_entry-status_entry :
      (station status : String)
      → read_entry json (status_entry json station status) ≡ some (station, status)
  unfolding str_at Dict.get
  read_entry-status_entry station status =
      rw
        (
          json.view-make (
              object (
                ("fillStation", json.make (string station))
                ∷ ("status", json.make (string status))
                ∷ [])),
          json.view-make (string station),
          json.view-make (string status),
        )
        refl

  read_all-get_all :
      (cache : StatusCache) → read_all (read_entry json) (get_all json cache) ≡ some cache
  unfolding read_all get_all
  read_all-get_all [] = refl
  read_all-get_all ((station, status) ∷ cache) =
      rw (read_entry-status_entry station status, read_all-get_all cache) refl

  -- After an update, the list of all statuses is read as a map with the new status of the station, next
  -- to those of the other stations.
  pub get_all-update_cached :
      (station status other : String) (cache : StatusCache)
      → (c : StatusCache) × (read_all
            (read_entry json)
            (get_all json (update_cached station status cache))
          ≡ some c)
        × (Dict.get other c ≡ (if other == station then some status else Dict.get other cache))
  unfolding update_cached
  get_all-update_cached station status other cache = (
    Dict.insert station status cache,
    read_all-get_all (Dict.insert station status cache),
    Dict.get-insert other station status cache,
  )
