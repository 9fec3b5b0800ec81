-- ===== src/Cloud/Loops/Streams.antt =====
-- What a command stream and a heartbeat do with a reconnect, and with a detail that cannot be cut.
use Prim.Native.String.{len, ◌++◌ as ◌<>◌}
use text.Mathlib.Text.{get?}
use filling_pilot_edge_rs.Common.{
  ◌≡◌, ap, ◌∙◌, Bool, true, false, Option, none, some, List, ◌∷◌, [], ◌++◌, String, ltb, str_eq,
  eq_iff, subst, Bool-cases, inl, inr, if◌then◌else◌, if-true, if-false, if-same,
}
use filling_pilot_edge_rs.Common.Int.{ℤ}
use filling_pilot_edge_rs.Common.Maybe.{◌>>=◌}
use filling_pilot_edge_rs.Common.Text.{parse_signed}
use filling_pilot_edge_rs.Cloud.Types.{CloudCrates, ServerCommand}
use filling_pilot_edge_rs.Cloud.Session.{CloudSession, build_ecn_info}
use filling_pilot_edge_rs.Cloud.Command.{
  reconnect, command_of, new_random, handle_reconnect, run_command, handle_command,
}
use filling_pilot_edge_rs.Cloud.Loops.{
  StreamItem, received, summarised, with_summary, command_stream, register_once, register, greet,
  heartbeat_answer, send_heartbeat, after_item, after_registration, summary_only, session_of,
}
use filling_pilot_edge_rs.Cloud.Summary.{plcs_in, fallback, joined_or, extract_plc_summary}
use filling_pilot_edge_rs.S7.Crate.{S7Crate}

if-both : {A : Type 0} (b : Bool) {x y z : A} → x ≡ z → y ≡ z → (if b then x else y) ≡ z
if-both true p q = p
if-both false p q = q

module _ {s7 : S7Crate} (crates : CloudCrates s7) where
  abbrev pub summary_of : String → Option String
  summary_of detail = extract_plc_summary crates.json (crates.parse_json detail) detail

  summarised-eq :
      (cmd : ServerCommand) (s : CloudSession s7) (text : String)
      → summary_of cmd.detail ≡ some text
      → summarised crates cmd s ≡ handle_command crates cmd s
  unfolding summarised
  summarised-eq cmd s text h = rw h (if-same (str_eq cmd.detail "") _)

  handle_command-reconnect :
      (cmd : ServerCommand) (s : CloudSession s7) (n : ℤ)
      → command_of cmd.command_type ≡ reconnect
      → parse_signed 9223372036854775808 cmd.detail ≡ some n
      → handle_command crates cmd s ≡ some (true, record s { random_number = n })
  unfolding handle_command run_command handle_reconnect new_random
  handle_command-reconnect cmd s n t p =
      ap (λ c. run_command crates c cmd.detail s) t ∙ ap (λ m. some (true, new_random crates m s)) p

  -- A numeric reconnect ends its command stream, whatever would come behind it: the node registers again
  -- with the number as its random number.
  pub register-reconnect :
      (cmd : ServerCommand) (items : List StreamItem) (streams : List (Option (List StreamItem)))
      (s : CloudSession s7) (n : ℤ) (text : String)
      → s.connected ≡ true
      → command_of cmd.command_type ≡ reconnect
      → parse_signed 9223372036854775808 cmd.detail ≡ some n
      → summary_of cmd.detail ≡ some text
      → register crates (some (received cmd ∷ items) ∷ streams) s
        ≡ register crates streams (record (greet crates s) { random_number = n })
  unfolding register register_once command_stream
  register-reconnect cmd items streams s n text c t p h =
      ap (λ r. after_registration crates r (register crates streams))
        (if-true s.connected _ _ c
          ∙ ap (λ r. after_item crates r (command_stream crates items))
              (summarised-eq cmd (greet crates s) text h
                ∙ handle_command-reconnect cmd (greet crates s) n t p))

  summary-none :
      (detail : String)
      → plcs_in crates.json (crates.parse_json detail) ≡ []
      → ltb 50 (len detail) ≡ true
      → get? detail 0 50 ≡ none
      → summary_of detail ≡ none
  unfolding extract_plc_summary joined_or fallback
  summary-none detail h l g =
      ap (λ plcs. joined_or plcs detail) h
      ∙ if-true (ltb 50 (len detail)) _ _ l
      ∙ ap (λ start. start >>= (λ text. some (text <> "..."))) g

  long_is_not_empty : (detail : String) → ltb 50 (len detail) ≡ true → str_eq detail "" ≡ false
  long_is_not_empty detail l = elim (Bool-cases (str_eq detail "")) [
    | inl same ↦
        let short : ltb 50 0 ≡ true =
          subst (λ d. ltb 50 (len d) ≡ true) ((eq_iff detail "").0 same) l in
        absurd (cc)
    | inr other ↦ other
  ]

  summarised-none :
      (cmd : ServerCommand) (s : CloudSession s7)
      → str_eq cmd.detail "" ≡ false
      → summary_of cmd.detail ≡ none
      → summarised crates cmd s ≡ none
  unfolding summarised
  summarised-none cmd s e h =
      if-false (str_eq cmd.detail "") _ _ e ∙ ap (λ text. with_summary crates text cmd s) h

  -- A detail of more than fifty bytes in which no PLC is found, and whose fiftieth byte ends no character,
  -- panics in the log line in front of its command, be it on the stream or in a heartbeat's response.
  pub bad_detail_panics :
      (cmd : ServerCommand) (items : List StreamItem) (s : CloudSession s7)
      → plcs_in crates.json (crates.parse_json cmd.detail) ≡ []
      → ltb 50 (len cmd.detail) ≡ true
      → get? cmd.detail 0 50 ≡ none
      → (command_stream crates (received cmd ∷ items) s ≡ none)
        × (heartbeat_answer crates (some cmd) s ≡ none)
  unfolding command_stream heartbeat_answer summarised
  bad_detail_panics cmd items s h l g =
      let silent = summary-none cmd.detail h l g in
      let filled = long_is_not_empty cmd.detail l in
      let panics = summarised-none cmd s filled silent in
      (
        ap (λ r. after_item crates r (command_stream crates items)) panics,
        if-both (str_eq cmd.command_type "")
            (if-false (str_eq cmd.detail "") _ _ filled
              ∙ ap (λ text. summary_only crates text s) silent)
            (ap (session_of crates) panics),
      )

  -- A reconnect with a number and a detail that can be summarised, in the response to a heartbeat, sets
  -- the random number, and that is all: the only info that the cloud gets is that of the heartbeat.
  pub send_heartbeat-reconnect :
      (cmd : ServerCommand) (s : CloudSession s7) (n : ℤ) (text : String)
      → s.connected ≡ true
      → str_eq cmd.command_type "" ≡ false
      → command_of cmd.command_type ≡ reconnect
      → parse_signed 9223372036854775808 cmd.detail ≡ some n
      → summary_of cmd.detail ≡ some text
      → send_heartbeat crates (some cmd) s
        ≡ some (record s {
          random_number = n;
          greetings = s.greetings ++ (build_ecn_info crates s ∷ []);
        })
  unfolding send_heartbeat heartbeat_answer
  send_heartbeat-reconnect cmd s n text c named t p h =
      if-true s.connected _ _ c
      ∙ if-false (str_eq cmd.command_type "") _ _ named
      ∙ ap (session_of crates) (
          summarised-eq cmd (greet crates s) text h
          ∙ handle_command-reconnect cmd (greet crates s) n t p)
