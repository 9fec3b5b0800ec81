-- ===== src/Cloud/Config/Answers.antt =====
-- What the command plcInfo answers, and what a new configuration sets.
use filling_pilot_edge_rs.Common.{
  ◌≡◌, String, false, List, [], ◌∷◌, ◌++◌, map, str_eq, if◌then◌else◌, is_empty,
}
use filling_pilot_edge_rs.Cloud.Types.{CloudCrates}
use filling_pilot_edge_rs.Cloud.Session.{CloudSession, test_plcs}
use filling_pilot_edge_rs.Cloud.Session.Signed.{
  Sends, Sends-then, send_plc_response-Sends, test_plcs-Sends,
}
use filling_pilot_edge_rs.Cloud.Config.{
  parse_plc_list, apply_config, report_plcs, with_plcs, handle_plc_info,
}
use filling_pilot_edge_rs.Monitor.Config.{Monitor_eq}
use filling_pilot_edge_rs.Report.Station.{FillStation_eq}
use filling_pilot_edge_rs.S7.Crate.{S7Crate}
use filling_pilot_edge_rs.S7.Types.{PlcConfig}

module _ {s7 : S7Crate} (crates : CloudCrates s7) where
  pub report_plcs-Sends :
      (plcs : List PlcConfig) (s : CloudSession s7)
      → Sends crates s (map (λ plc. plc.id) plcs ++ ("plcInfo" ∷ [])) (report_plcs crates plcs s)
  unfolding report_plcs
  report_plcs-Sends plcs s =
      Sends-then crates s (test_plcs crates plcs s).1 _ (test_plcs-Sends crates plcs s)
        (send_plc_response-Sends crates "plcInfo" "plcInfo" "ok" _)

  -- The session in which the PLCs of a configuration are tested.
  abbrev pub configured : String → CloudSession s7 → CloudSession s7
  configured detail s =
      if str_eq s.last_plc_detail detail
      then s
      else apply_config crates detail (parse_plc_list crates detail) s

  with_plcs-Sends :
      (detail : String) (plcs : List PlcConfig) (s : CloudSession s7)
      → is_empty plcs ≡ false
      → Sends crates
          (if str_eq s.last_plc_detail detail then s else apply_config crates detail plcs s)
          (map (λ plc. plc.id) plcs ++ ("plcInfo" ∷ []))
          (with_plcs crates detail plcs s)
  unfolding with_plcs
  with_plcs-Sends detail [] s h = absurd (cc)
  with_plcs-Sends detail (plc ∷ plcs) s h = report_plcs-Sends (plc ∷ plcs) _

  -- A plcInfo command with PLCs sends one message for each, in order, and one for the command, each with
  -- the node's id and signature. Beyond that and the world it changes nothing where the text of the
  -- configuration is the last one; else it applies the configuration first.
  pub handle_plc_info-Sends :
      (detail : String) (s : CloudSession s7)
      → is_empty (parse_plc_list crates detail) ≡ false
      → Sends crates
          (configured detail s)
          (map (λ plc. plc.id) (parse_plc_list crates detail) ++ ("plcInfo" ∷ []))
          (handle_plc_info crates detail s)
  unfolding handle_plc_info
  handle_plc_info-Sends detail s h = with_plcs-Sends detail (parse_plc_list crates detail) s h
