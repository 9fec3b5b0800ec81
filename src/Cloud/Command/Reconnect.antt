-- ===== src/Cloud/Command/Reconnect.antt =====
-- When a command asks for a new registration, and with which random number.
use mathlib.Core.Option.{some-injective}
use filling_pilot_edge_rs.Common.{
  ℕ, ◌≡◌, ◌≢◌, ◌⊎◌, inl, inr, refl, ap, ◌∙◌, subst, Bool, true, false, Option, none, some, List,
  ◌∷◌, [], String, Bool-cases, str_eq,
}
use filling_pilot_edge_rs.Common.Int.{ℤ}
use filling_pilot_edge_rs.Common.Text.{parse_signed}
use filling_pilot_edge_rs.Context.{ServerConf}
use filling_pilot_edge_rs.Cloud.Types.{CloudCrates, ServerCommand}
use filling_pilot_edge_rs.Cloud.Session.{CloudSession}
use filling_pilot_edge_rs.Cloud.Session.Signed.{Sends, send_plc_response-Sends}
use filling_pilot_edge_rs.Cloud.Config.{
  apply_config, apply_array, apply_fill_stations, save_meta, array_in, parse_plc_list, with_plcs,
  handle_plc_info,
}
use filling_pilot_edge_rs.Cloud.Config.Answers.{report_plcs-Sends}
use filling_pilot_edge_rs.Cloud.Config.Applied.{apply_monitors-eq, apply_stations-eq}
use filling_pilot_edge_rs.Cloud.Command.{
  Command, plc_info, reconnect, not_implemented, read, write, status, report_submitted, client_info,
  config, unknown, command_of, update_heartbeat, apply_server_conf, config_parsed, log_slice,
  submitted, goes_on, new_random, handle_reconnect, read_parsed, write_decoded, write_parsed,
  handle_status, handle_config, run_command, handle_command,
}
use filling_pilot_edge_rs.Error.{Result, ok, err}
use filling_pilot_edge_rs.Monitor.Config.Parse.{parse_monitors}
use filling_pilot_edge_rs.Report.Station.Parse.{parse_from_plc_info}
use filling_pilot_edge_rs.S7.Crate.{S7Crate}
use filling_pilot_edge_rs.S7.Types.{PlcConfig, ReadRequest, WriteRequest}

module _ {s7 : S7Crate} (crates : CloudCrates s7) where
  open crates use {json}

  abbrev random : CloudSession s7 → ℤ
  random s = s.random_number

  random-Sends :
      {ids : List String} {t : CloudSession s7} (s : CloudSession s7)
      → Sends crates s ids t
      → random t ≡ random s
  random-Sends s k = ap random k.same

  random-array :
      (items : Option (List json.Value)) (s : CloudSession s7)
      → random (apply_array crates items s) ≡ random s
  unfolding apply_array apply_fill_stations save_meta
  random-array none s = refl
  random-array (some items) s =
      ap random (apply_monitors-eq crates (parse_monitors json items) _)
      ∙ ap random (apply_stations-eq crates (parse_from_plc_info json items) s)

  random-plcs :
      (detail : String) (plcs : List PlcConfig) (s : CloudSession s7)
      → random (with_plcs crates detail plcs s) ≡ random s
  unfolding with_plcs apply_config
  random-plcs detail [] s = refl
  random-plcs detail (plc ∷ plcs) s = elim (Bool-cases (str_eq s.last_plc_detail detail)) [
    | inl same ↦ rw same (random-Sends s (report_plcs-Sends crates (plc ∷ plcs) s))
    | inr other ↦ rw other (
        random-Sends (apply_config crates detail (plc ∷ plcs) s)
          (report_plcs-Sends crates (plc ∷ plcs) _)
        ∙ random-array (array_in crates detail) _)
  ]

  random-decoded :
      (q : WriteRequest) (bytes : Result (List ℕ) String) (s : CloudSession s7)
      → random (write_decoded crates q bytes s) ≡ random s
  unfolding write_decoded
  random-decoded q (err e) s = refl
  random-decoded q (ok bytes) s =
      random-Sends _ (send_plc_response-Sends crates q.plc_id "write" _ _)

  random-write :
      (q : Option WriteRequest) (s : CloudSession s7) → random (write_parsed crates q s) ≡ random s
  unfolding write_parsed
  random-write none s = refl
  random-write (some q) s = random-decoded q _ s

  random-read :
      (q : Option ReadRequest) (s : CloudSession s7) → random (read_parsed crates q s) ≡ random s
  unfolding read_parsed
  random-read none s = refl
  random-read (some q) s = random-Sends _ (send_plc_response-Sends crates q.plc_id "read" _ _)

  random-submitted : (id : Option ℤ) (s : CloudSession s7) → random (submitted id s) ≡ random s
  unfolding submitted
  random-submitted none s = refl
  random-submitted (some id) s = refl

  -- What a command gives: a reconnect asks for a new registration, with the number of its detail if it
  -- has one, and every other command asks for none and keeps the number.
  abbrev pub Obeyed : Command → String → CloudSession s7 → Bool → CloudSession s7 → Type 0
  Obeyed c detail s again t =
      ((again ≡ true)
        × (c ≡ reconnect)
        × ((n : ℤ) → parse_signed 9223372036854775808 detail ≡ some n → t.random_number ≡ n))
      ⊎ ((again ≡ false) × (c ≢ reconnect) × (t.random_number ≡ s.random_number))

  abbrev Answer : Command → String → CloudSession s7 → Option (Bool × CloudSession s7) → Type 0
  Answer c detail s none = Unit
  Answer c detail s (some (again, t)) = Obeyed c detail s again t

  random-logged :
      (text : Option String) (detail : String) (s : CloudSession s7)
      → Answer config detail s (goes_on (log_slice text s))
  random-logged none detail s = tt
  random-logged (some text) detail s = inr (refl, λ e. absurd (cc), refl)

  random-parsed :
      (conf : Option ServerConf) (detail : String) (s : CloudSession s7)
      → Answer config detail s (goes_on (config_parsed conf detail s))
  unfolding config_parsed apply_server_conf update_heartbeat
  random-parsed (some conf) detail s = inr (refl, λ e. absurd (cc), refl)
  random-parsed none detail s = random-logged _ detail s

  random-config :
      (detail : String) (s : CloudSession s7)
      → Answer config detail s (goes_on (handle_config crates detail s))
  unfolding handle_config
  random-config detail s = elim (Bool-cases (str_eq detail "")) [
    | inl empty ↦ rw empty (inr (refl, λ e. absurd (cc), refl))
    | inr filled ↦ rw filled (random-parsed (crates.parse_server_conf detail) detail s)
  ]

  random-reconnect :
      (parsed : Option ℤ) (s : CloudSession s7) (n : ℤ)
      → parsed ≡ some n
      → random (new_random crates parsed s) ≡ n
  unfolding new_random
  random-reconnect (some m) s n e = some-injective m n e
  random-reconnect none s n e = absurd (cc)

  run_command-Obeyed :
      (c : Command) (detail : String) (s : CloudSession s7)
      → Answer c detail s (run_command crates c detail s)
  unfolding run_command handle_plc_info handle_reconnect handle_status
  run_command-Obeyed plc_info detail s =
      inr (refl, λ e. absurd (cc), random-plcs detail (parse_plc_list crates detail) s)
  run_command-Obeyed reconnect detail s =
      inl (refl, refl, random-reconnect (parse_signed 9223372036854775808 detail) s)
  run_command-Obeyed not_implemented detail s = inr (refl, λ e. absurd (cc), refl)
  run_command-Obeyed read detail s = inr (refl, λ e. absurd (cc), random-read _ s)
  run_command-Obeyed write detail s = inr (refl, λ e. absurd (cc), random-write _ s)
  run_command-Obeyed status detail s = inr (
    refl,
    λ e. absurd (cc),
    random-Sends s (send_plc_response-Sends crates "status" "status" _ s),
  )
  run_command-Obeyed report_submitted detail s = inr (refl, λ e. absurd (cc), random-submitted _ s)
  run_command-Obeyed client_info detail s =
      inr (
        refl,
        λ e. absurd (cc),
        random-Sends s (send_plc_response-Sends crates "" "clientInfo" _ s),
      )
  run_command-Obeyed config detail s = random-config detail s
  run_command-Obeyed unknown detail s = inr (refl, λ e. absurd (cc), refl)

  -- A command that does not panic asks for a new registration exactly when it is a reconnect. A reconnect
  -- whose detail is an i64 sets the random number to it, and every other command keeps the number.
  pub handle_command-Obeyed :
      (cmd : ServerCommand) (s t : CloudSession s7) (again : Bool)
      → handle_command crates cmd s ≡ some (again, t)
      → Obeyed (command_of cmd.command_type) cmd.detail s again t
  unfolding handle_command
  handle_command-Obeyed cmd s t again e =
      subst (Answer (command_of cmd.command_type) cmd.detail s) e
        (run_command-Obeyed (command_of cmd.command_type) cmd.detail s)
