-- ===== src/Report/Disk/Lost.antt =====
-- What a restart makes of the file of the reports.
use filling_pilot_edge_rs.Common.{
  ◌^◌, ◌<◌, ◌≡◌, refl, none, some, String, List, [], ◌∷◌, ◌++◌, arith, unwrap_or, Option, Bool,
}
use filling_pilot_edge_rs.Common.Dict
use filling_pilot_edge_rs.Common.Dict.{Dict}
use filling_pilot_edge_rs.Common.Eq.{String_eq}
use filling_pilot_edge_rs.Common.Int.{ℤ, pos, negsuc, InSigned}
use filling_pilot_edge_rs.Common.Maybe.{◌>>=◌}
use filling_pilot_edge_rs.Files.{Files, load_text}
use filling_pilot_edge_rs.Json.{Json, View, null, bool, number, string, array, object}
use filling_pilot_edge_rs.Json.Derive.{
  required, bool_value, signed_value-of_signed, text_value-of_text, unsigned_value-of_unsigned,
}
use filling_pilot_edge_rs.Report.Cache.{Caches}
use filling_pilot_edge_rs.Report.Disk.{
  insert_loaded, load_reports_from_disk, loaded_reports, reports_from, reports_in, station_of,
  report_fields, report_from, report_of, report_value,
}
use filling_pilot_edge_rs.Report.PlcReport.{PlcReport}

-- There is no entry in what was read, if anything was.
abbrev IsEmpty : {A : Type 0} → Option (List A) → Type 0
IsEmpty o = unwrap_or o [] ≡ []

module _ (json : Json) where
  open json use {Value, view, make}

  reports_from-cons :
      (key : String) (v : Value) (fields : Dict String Value)
      → reports_from json ((key, v) ∷ fields) ≡ none
  unfolding reports_from station_of
  reports_from-cons key v fields = rw (json.view-make (string key)) refl

  reports_in-IsEmpty : (view : View Value json.Number) → IsEmpty (reports_in json view)
  unfolding reports_from
  reports_in-IsEmpty null = refl
  reports_in-IsEmpty (bool b) = refl
  reports_in-IsEmpty (number n) = refl
  reports_in-IsEmpty (string s) = refl
  reports_in-IsEmpty (array vs) = refl
  reports_in-IsEmpty (object []) = refl
  reports_in-IsEmpty (object ((key, v) ∷ fields)) = rw (reports_from-cons key v fields) refl

module _ (json : Json) (files : Files json.Value) where
  parsed-IsEmpty :
      (value : Option json.Value) → IsEmpty (value >>= λ v. reports_in json (json.view v))
  parsed-IsEmpty none = refl
  parsed-IsEmpty (some v) = reports_in-IsEmpty json (json.view v)

  read-IsEmpty :
      (text : Option String)
      → IsEmpty (text >>= λ t. files.from_str t >>= λ v. reports_in json (json.view v))
  read-IsEmpty none = refl
  read-IsEmpty (some t) = parsed-IsEmpty (files.from_str t)

  -- Whatever the file of the reports holds, a restart loads no report from it: the keys of an object are
  -- texts, and no station is read from a text.
  pub load_reports_from_disk-same :
      (d : files.Disk) (caches : Caches) → load_reports_from_disk json files d caches ≡ caches
  unfolding load_reports_from_disk loaded_reports insert_loaded
  load_reports_from_disk-same d caches = rw (read-IsEmpty (load_text files _ d)) refl

-- The numbers of a report have their types' widths.
pub record HasWidths (r : PlcReport) : Type 0 where
  pub report_id_fits : InSigned (2 ^ 63) r.report_id
  pub task_id_fits : InSigned (2 ^ 63) r.task_id
  pub start_time_fits : InSigned (2 ^ 63) r.start_time
  pub end_time_fits : InSigned (2 ^ 63) r.end_time
  pub port_fits : r.port < 2 ^ 16
  pub db_index_fits : InSigned (2 ^ 31) r.db_index

wider : (z : ℤ) → InSigned (2 ^ 31) z → InSigned (2 ^ 63) z
wider (pos n) h = omega (arith, h)
wider (negsuc n) h = omega (arith, h)

module _ (json : Json) where
  open json use {make}

  -- The fields that a report has in the file, with the one that is not written.
  abbrev pub with_sent : PlcReport → Dict String json.Value
  with_sent r = report_fields json r ++ (("sent", make (bool r.sent)) ∷ [])

  bool_value-bool : (b : Bool) → bool_value json (make (bool b)) ≡ some b
  unfolding bool_value
  bool_value-bool b = rw (json.view-make (bool b)) refl

  report_from-append :
      (r : PlcReport) (rest : Dict String json.Value)
      → HasWidths r
      → report_from json (report_fields json r ++ rest)
        ≡ (required (bool_value json) "sent" rest >>= λ sent. some (record r { sent = sent }))
  unfolding report_from report_fields Dict.get
  report_from-append r rest h =
      rw
        (
          signed_value-of_signed json (2 ^ 63) r.report_id h.report_id_fits h.report_id_fits,
          text_value-of_text json r.fill_station,
          signed_value-of_signed json (2 ^ 63) r.task_id h.task_id_fits h.task_id_fits,
          signed_value-of_signed json (2 ^ 63) r.start_time h.start_time_fits h.start_time_fits,
          signed_value-of_signed json (2 ^ 63) r.end_time h.end_time_fits h.end_time_fits,
          text_value-of_text json r.ip,
          unsigned_value-of_unsigned json (2 ^ 16) r.port h.port_fits (omega (arith, h.port_fits)),
          signed_value-of_signed json (2 ^ 31) r.db_index h.db_index_fits
              (wider r.db_index h.db_index_fits),
          text_value-of_text json r.hex_content,
        )
        refl

  -- No report is read back from what is written of it, because its field `sent` is missing; with that
  -- field in addition it is read back as it was.
  pub report_of-report_value :
      (r : PlcReport)
      → HasWidths r
      → (report_of json (report_value json r) ≡ none)
        × (report_of json (make (object (with_sent r))) ≡ some r)
  unfolding report_of report_value report_fields Dict.get
  report_of-report_value r h = (
    rw (json.view-make (object (report_fields json r))) (report_from-append r [] h),
    rw
        (
          json.view-make (object (with_sent r)),
          report_from-append r (("sent", make (bool r.sent)) ∷ []) h,
          bool_value-bool r.sent,
        )
        refl,
  )
