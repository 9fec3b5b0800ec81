-- ===== src/Report/Disk.antt =====
-- The file of the reports, `~/.edge/reports.json` (`load_reports_from_disk` and `persist_reports_to_disk`
-- of `ReportCache`), and what serde derives for stations and reports.
pub mod Lost
use Prim.Native.String.{◌++◌ as ◌<>◌}
use filling_pilot_edge_rs.Common.{
  ℕ, ◌^◌, String, false, Option, none, some, List, [], ◌∷◌, is_empty, unwrap_or, if◌then◌else◌,
}
use filling_pilot_edge_rs.Common.Dict
use filling_pilot_edge_rs.Common.Dict.{Dict}
use filling_pilot_edge_rs.Common.Eq.{String_eq}
use filling_pilot_edge_rs.Common.Int.{ℤ, pos}
use filling_pilot_edge_rs.Common.Maybe.{◌>>=◌}
use filling_pilot_edge_rs.Files.{Files, cache_dir, load_text, persist_value}
use filling_pilot_edge_rs.Json.{Json, View, string, array, object}
use filling_pilot_edge_rs.Json.Derive.{
  struct_fields, required, defaulted, text_value, bool_value, unsigned_value, signed_value,
  list_value, of_text, of_unsigned, of_signed, of_list,
}
use filling_pilot_edge_rs.Report.Cache.{Caches, ReportCache}
use filling_pilot_edge_rs.Report.PlcReport.{PlcReport}
use filling_pilot_edge_rs.Report.Station.{FillStation, FillStation_eq}

-- The cache of `ReportCache::new`, before its thread has loaded the file.
abbrev pub new : ReportCache
new = record { caches = []; status_cache = []; last_status_sent_time = [] }

-- The fields of the two structs in a file, in their order.
abbrev pub station_names : List String
station_names =
    "id" ∷ "ip" ∷ "port" ∷ "reportDb" ∷ "statusDb" ∷ "reportCount" ∷ "reportDbSize"
    ∷ "reportDbTaskOffset" ∷ "reportDbStartTimeOffset" ∷ "reportDbEndTimeOffset" ∷ "statusDbSize"
    ∷ []

abbrev pub report_names : List String
report_names =
    "reportId" ∷ "fillStation" ∷ "taskId" ∷ "startTime" ∷ "endTime" ∷ "ip" ∷ "port" ∷ "dbIndex"
    ∷ "hexContent" ∷ "sent" ∷ []

module _ (json : Json) where
  open json use {Value, view, make}

  -- the derived `Serialize` of a station
  unfoldable pub station_value : FillStation → Value
  station_value s = make (
      object (
        ("id", of_text json s.id)
        ∷ ("ip", of_text json s.ip)
        ∷ ("port", of_unsigned json s.port)
        ∷ ("reportDb", of_signed json s.report_db)
        ∷ ("statusDb", of_signed json s.status_db)
        ∷ ("reportCount", of_unsigned json s.report_count)
        ∷ ("reportDbSize", of_unsigned json s.report_db_size)
        ∷ ("reportDbTaskOffset", of_unsigned json s.report_db_task_offset)
        ∷ ("reportDbStartTimeOffset", of_unsigned json s.report_db_start_time_offset)
        ∷ ("reportDbEndTimeOffset", of_unsigned json s.report_db_end_time_offset)
        ∷ ("statusDbSize", of_unsigned json s.status_db_size)
        ∷ []))

  -- the derived `Serialize` of a report, which skips `sent`
  unfoldable pub report_fields : PlcReport → Dict String Value
  report_fields r =
      ("reportId", of_signed json r.report_id)
      ∷ ("fillStation", of_text json r.fill_station)
      ∷ ("taskId", of_signed json r.task_id)
      ∷ ("startTime", of_signed json r.start_time)
      ∷ ("endTime", of_signed json r.end_time)
      ∷ ("ip", of_text json r.ip)
      ∷ ("port", of_unsigned json r.port)
      ∷ ("dbIndex", of_signed json r.db_index)
      ∷ ("hexContent", of_text json r.hex_content)
      ∷ []

  unfoldable pub report_value : PlcReport → Value
  unfolding report_fields
  report_value r = make (object (report_fields r))

  -- the derived `Deserialize` of a station, with the defaults of its fields
  unfoldable pub station_from : Dict String Value → Option FillStation
  station_from fields = do
    id ← required (text_value json) "id" fields
    ip ← required (text_value json) "ip" fields
    port ← required (unsigned_value json (2 ^ 16)) "port" fields
    report_db ← defaulted (signed_value json (2 ^ 31)) (pos 0) "reportDb" fields
    status_db ← defaulted (signed_value json (2 ^ 31)) (pos 0) "statusDb" fields
    report_count ← defaulted (unsigned_value json (2 ^ 64)) 50 "reportCount" fields
    report_db_size ← defaulted (unsigned_value json (2 ^ 64)) 808 "reportDbSize" fields
    task_offset ← defaulted (unsigned_value json (2 ^ 64)) 780 "reportDbTaskOffset" fields
    start_offset ← defaulted (unsigned_value json (2 ^ 64)) 472 "reportDbStartTimeOffset" fields
    end_offset ← defaulted (unsigned_value json (2 ^ 64)) 480 "reportDbEndTimeOffset" fields
    status_db_size ← defaulted (unsigned_value json (2 ^ 64)) 38 "statusDbSize" fields
    some (record {
      id = id;
      ip = ip;
      port = port;
      report_db = report_db;
      status_db = status_db;
      report_count = report_count;
      report_db_size = report_db_size;
      report_db_task_offset = task_offset;
      report_db_start_time_offset = start_offset;
      report_db_end_time_offset = end_offset;
      status_db_size = status_db_size;
    })

  unfoldable pub station_of : Value → Option FillStation
  unfolding station_from
  station_of v = do fields ← struct_fields 3 station_names (view v); station_from fields

  -- the derived `Deserialize` of a report: every field must be there
  unfoldable pub report_from : Dict String Value → Option PlcReport
  report_from fields = do
    report_id ← required (signed_value json (2 ^ 63)) "reportId" fields
    fill_station ← required (text_value json) "fillStation" fields
    task_id ← required (signed_value json (2 ^ 63)) "taskId" fields
    start_time ← required (signed_value json (2 ^ 63)) "startTime" fields
    end_time ← required (signed_value json (2 ^ 63)) "endTime" fields
    ip ← required (text_value json) "ip" fields
    port ← required (unsigned_value json (2 ^ 16)) "port" fields
    db_index ← required (signed_value json (2 ^ 31)) "dbIndex" fields
    hex_content ← required (text_value json) "hexContent" fields
    sent ← required (bool_value json) "sent" fields
    some (record {
      report_id = report_id;
      fill_station = fill_station;
      task_id = task_id;
      start_time = start_time;
      end_time = end_time;
      ip = ip;
      port = port;
      db_index = db_index;
      hex_content = hex_content;
      sent = sent;
    })

  unfoldable pub report_of : Value → Option PlcReport
  unfolding report_from
  report_of v = do fields ← struct_fields 10 report_names (view v); report_from fields

  -- `serde_json::from_str::<HashMap<FillStation, Vec<PlcReport>>>`: the key of an object is a text, and
  -- that is what the station is read from.
  unfoldable pub reports_from : Dict String Value → Option (List (FillStation × List PlcReport))
  unfolding station_of report_of
  reports_from [] = some []
  reports_from ((key, v) ∷ fields) = do
    station ← station_of (make (string key))
    reports ← list_value json report_of v
    rest ← reports_from fields
    some ((station, reports) ∷ rest)

  abbrev pub reports_in : View Value json.Number → Option (List (FillStation × List PlcReport))
  reports_in (object fields) = reports_from fields
  reports_in _ = none

  -- The snapshot: `map.insert(key, to_value(reports_vec))` for each station.
  unfoldable pub snapshot : Caches → Dict String Value → Dict String Value
  unfolding station_value report_value
  snapshot [] acc = acc
  snapshot ((station, reports) ∷ caches) acc = snapshot caches (
      Dict.insert (json.to_text (station_value station))
        (make (array (of_list json report_value reports))) acc)

-- `c.insert(station, list)` for each station of the file
unfoldable pub insert_loaded : List (FillStation × List PlcReport) → Caches → Caches
insert_loaded [] caches = caches
insert_loaded ((station, reports) ∷ loaded) caches =
    insert_loaded loaded (Dict.insert station reports caches)

module _ (json : Json) (files : Files json.Value) where
  open files use {Disk}
  open json use {view, make}

  -- `reports_file_path`
  abbrev pub reports_file_path : String
  reports_file_path = cache_dir files <> "/reports.json"

  -- What the file gives, if there is a file that is parsed.
  unfoldable pub loaded_reports : Disk → Option (List (FillStation × List PlcReport))
  unfolding reports_from
  loaded_reports d = do
    text ← load_text files reports_file_path d
    value ← files.from_str text
    reports_in json (view value)

  unfoldable pub load_reports_from_disk : Disk → Caches → Caches
  unfolding loaded_reports insert_loaded
  load_reports_from_disk d caches = insert_loaded (unwrap_or (loaded_reports d) []) caches

  unfoldable pub persist_reports_to_disk : Caches → Disk → Disk
  unfolding snapshot
  persist_reports_to_disk caches d =
      let map = snapshot json caches [] in
      if is_empty map then d else persist_value files reports_file_path (make (object map)) d
