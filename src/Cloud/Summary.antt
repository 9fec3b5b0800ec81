-- ===== src/Cloud/Summary.antt =====
-- The summary of the detail of a command for the log. A slice off the characters' boundaries panics, so
-- that the log decides whether a command is handled.
use Prim.Native.String.{◌++◌ as ◌<>◌, len}
use text.Mathlib.Text.{get?}
use filling_pilot_edge_rs.Common.{
  String, Option, none, some, List, [], ◌∷◌, ltb, if◌then◌else◌, unwrap_or, is_empty,
}
use filling_pilot_edge_rs.Common.Maybe.{◌>>=◌}
use filling_pilot_edge_rs.Json.{Json}
use filling_pilot_edge_rs.Json.Members.{str_at, u64_at, array_at, items_of}
use filling_pilot_edge_rs.Report.Station.Parse.{push_parsed}
use filling_pilot_edge_rs.S7.Pool.{key_of}

-- `plcs.join(", ")`
abbrev pub join : List String → String
join [] = ""
join (s ∷ []) = s
join (s ∷ t ∷ rest) = s <> (", " <> join (t ∷ rest))

module _ (json : Json) where
  open json use {Value, view}

  unfoldable pub plc_summary : Value → Option String
  plc_summary item = do
    ip ← str_at json "ipAddress" item
    port ← u64_at json "portNumber" item
    some (key_of ip port)

  unfoldable pub summaries : List Value → List String
  unfolding plc_summary
  summaries [] = []
  summaries (item ∷ items) = push_parsed (plc_summary item) (summaries items)

  -- The PLCs of the value, as an array or under `dataMeta`.
  unfoldable pub plcs_of : Value → List String
  unfolding summaries
  plcs_of value =
      let plcs = summaries (unwrap_or (items_of (view value)) []) in
      if is_empty plcs then summaries (unwrap_or (array_at json "dataMeta" value) []) else plcs

  unfoldable pub plcs_in : Option Value → List String
  unfolding plcs_of
  plcs_in none = []
  plcs_in (some value) = plcs_of value

-- `format!("{}...", &detail[..50])`; `none` is a panic
unfoldable pub fallback : String → Option String
fallback detail =
    if ltb 50 (len detail)
    then (do start ← get? detail 0 50; some (start <> "..."))
    else some detail

unfoldable pub joined_or : List String → String → Option String
unfolding fallback
joined_or [] detail = fallback detail
joined_or (p ∷ plcs) detail = some (join (p ∷ plcs))

-- `extract_plc_summary`, of the detail and what it is parsed to
unfoldable pub extract_plc_summary : (json : Json) → Option json.Value → String → Option String
unfolding joined_or plcs_in
extract_plc_summary json value detail = joined_or (plcs_in json value) detail
