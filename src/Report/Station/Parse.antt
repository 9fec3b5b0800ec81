-- ===== src/Report/Station/Parse.antt =====
-- `FillStation::parse_from_plc_info`: the stations of a configuration from the cloud.
use filling_pilot_edge_rs.Common.{
  ℕ, ◌%◌, String, Option, none, some, List, [], ◌∷◌, ◌++◌, ltb, unwrap_or, if◌then◌else◌,
}
use filling_pilot_edge_rs.Common.Int.{ℤ, pos, negsuc}
use filling_pilot_edge_rs.Common.Maybe.{◌>>=◌}
use filling_pilot_edge_rs.Json.{Json}
use filling_pilot_edge_rs.Json.Members.{str_at, u64_at, i64_at, array_at}
use filling_pilot_edge_rs.Report.Station.{FillStation}

-- An integer as serde reads it into an i32 and a usize; `none` is an error.
abbrev pub to_i32 : ℤ → Option ℤ
to_i32 (pos n) = if ltb n 2147483648 then some (pos n) else none
to_i32 (negsuc n) = if ltb n 2147483648 then some (negsuc n) else none

abbrev pub to_usize : ℤ → Option ℕ
to_usize (pos n) = some n
to_usize (negsuc n) = none

-- `continue` on an error: the stations behind it, with it in front if there is one.
abbrev pub push_parsed {ℓ} : {A : Type ℓ} → Option A → List A → List A
push_parsed none rest = rest
push_parsed (some a) rest = a ∷ rest

-- The address of a PLC object.
abbrev pub address_of : (json : Json) → json.Value → Option (String × ℕ)
address_of json plc = do
  ip ← str_at json "ipAddress" plc
  p ← u64_at json "portNumber" plc
  some (ip, p % 65536)

module _ (json : Json) where
  open json use {Value}

  abbrev int_at : String → ℕ → Value → ℤ
  int_at key default fs = unwrap_or (i64_at json key fs) (pos default)

  -- `serde_json::from_value` of the fields that `json!` collects
  unfoldable pub parse_station : String → ℕ → Value → Option FillStation
  parse_station ip port fs = do
    report_db ← to_i32 (int_at "reportDb" 0 fs)
    status_db ← to_i32 (int_at "statusDb" 0 fs)
    report_count ← to_usize (int_at "reportCount" 50 fs)
    report_db_size ← to_usize (int_at "reportDbSize" 808 fs)
    task_offset ← to_usize (int_at "reportDbTaskOffset" 780 fs)
    start_time_offset ← to_usize (int_at "reportDbStartTimeOffset" 472 fs)
    end_time_offset ← to_usize (int_at "reportDbEndTimeOffset" 480 fs)
    status_db_size ← to_usize (int_at "statusDbSize" 38 fs)
    some (record {
      id = unwrap_or (str_at json "id" fs) "";
      ip = ip;
      port = port;
      report_db = report_db;
      status_db = status_db;
      report_count = report_count;
      report_db_size = report_db_size;
      report_db_task_offset = task_offset;
      report_db_start_time_offset = start_time_offset;
      report_db_end_time_offset = end_time_offset;
      status_db_size = status_db_size;
    })

  unfoldable pub parse_stations : String → ℕ → List Value → List FillStation
  unfolding parse_station
  parse_stations ip port [] = []
  parse_stations ip port (fs ∷ rest) =
      push_parsed (parse_station ip port fs) (parse_stations ip port rest)

  unfoldable pub stations_of : Option (String × ℕ) → Option (List Value) → List FillStation
  unfolding parse_stations
  stations_of (some (ip, port)) (some fill_stations) = parse_stations ip port fill_stations
  stations_of (some address) none = []
  stations_of none fill_stations = []

  -- `FillStation::parse_from_plc_info`
  unfoldable pub parse_from_plc_info : List Value → List FillStation
  unfolding stations_of
  parse_from_plc_info [] = []
  parse_from_plc_info (plc ∷ plc_info) =
      stations_of (address_of json plc) (array_at json "fillStations" plc)
      ++ parse_from_plc_info plc_info
