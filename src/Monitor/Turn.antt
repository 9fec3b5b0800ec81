-- ===== src/Monitor/Turn.antt =====
-- One pass over the monitors (`trigger_monitors_direct`). A monitor's turn works on its own state; a
-- turn may end the pass by a panic, and leaves the state that it had written until then.
pub mod Block
pub mod Sends
pub mod Safety
use filling_pilot_edge_rs.Common.{
  ℕ, ◌+◌, ◌-◌, ◌%◌, String, Bool, true, false, not, ◌&&◌, ◌||◌, Option, none, some, List, [], ◌∷◌,
  ◌++◌, ltb, leb, str_eq, if◌then◌else◌, unwrap_or, length, take, replicate, min,
}
use filling_pilot_edge_rs.Common.Bytes.{copy_into}
use filling_pilot_edge_rs.Common.Dict
use filling_pilot_edge_rs.Common.Dict.{Dict}
use filling_pilot_edge_rs.Common.Eq.{String_eq}
use filling_pilot_edge_rs.Error.{Error, Result, ok, err}
use filling_pilot_edge_rs.Io.{Io}
use filling_pilot_edge_rs.Monitor.Config.{Monitor, MonitorState}
use filling_pilot_edge_rs.Report.Status.{wrapping_sub}

-- What the monitors use of other crates: `hex::encode`, the JSON text of `build_monitor_message`, and
-- whether `Handle::block_on` may be called on the thread of the pass. Its documentation says that it
-- panics on a thread that drives asynchronous tasks.
pub record Crates : Type 0 where
  pub hex_encode : List ℕ → String
  pub monitor_json : Monitor → String → String
  pub can_block : Bool

abbrev pub idle : MonitorState
idle = record { last_read_time = none; last_send_time = none; text = ""; running = false }

-- `should_read`
unfoldable pub should_read : Monitor → MonitorState → ℕ → Bool
should_read m state now = elim state.last_read_time [
  | none ↦ true
  | some last ↦ leb m.frequency (wrapping_sub now last)
]

-- `should_resend`
unfoldable pub should_resend : Monitor → MonitorState → ℕ → Bool
should_resend m state now = elim state.last_send_time [
  | none ↦ false
  | some last ↦ leb m.resend_interval (wrapping_sub now last)
]

-- The block of zeros with the data at the offset; `none` is the panic of the slice
-- `full[offset..offset + data_len]` whose start is past the end.
unfoldable pub full_block : ℕ → ℕ → List ℕ → Option (List ℕ)
full_block block_size offset bytes =
    let full = replicate block_size 0 in
    let data_len = min (length bytes) (length full - offset) in
    if ltb (length full) offset then none else some (copy_into full offset (take data_len bytes))

-- How the turn of a monitor ends: its state, and the text that is sent, if any.
pub data Turn : Type 0 where
  done : MonitorState → Option String → Turn
  panicked : MonitorState → Turn

-- The resend test at the end of a turn.
unfoldable pub resend : Monitor → ℕ → MonitorState → Turn
unfolding should_resend
resend m now state =
    if should_resend m state now && not (str_eq state.text "")
    then done (record state { last_send_time = some now }) (some state.text)
    else done state none

-- `Ok(data)` with the block built: a change is sent at once.
unfoldable pub compare_block : Monitor → ℕ → String → MonitorState → Turn
unfolding resend
compare_block m now new_data state =
    if not (str_eq new_data state.text)
    then done (record state { text = new_data; last_send_time = some now; running = false })
        (some new_data)
    else resend m now (record state { running = false })

unfoldable pub with_block : Crates → Monitor → ℕ → Option (List ℕ) → MonitorState → Turn
unfolding compare_block
with_block crates m now none state = panicked state
with_block crates m now (some full) state = compare_block m now (crates.hex_encode full) state

-- The `match` on the result of the read, at a state that is marked as running.
unfoldable pub after_read : Crates → Monitor → ℕ → Result (List ℕ) Error → MonitorState → Turn
unfolding with_block
after_read crates m now (ok bytes) state =
    with_block crates m now (full_block m.block_size m.offset bytes)
      (record state { last_read_time = some now })
after_read crates m now (err e) state = resend m now (record state { running = false })

-- `monitor.block_size.saturating_sub(monitor.offset)`
abbrev read_size : Monitor → ℕ
read_size m = m.block_size - m.offset

-- The post of a monitor with a local address decodes its text by the definition of its type, and
-- `decode_as_map` blocks its thread for the definition. The text is hexadecimal.
abbrev pub can_post : Crates → Monitor → Bool
can_post crates m = str_eq m.local_address "" || (str_eq m.monitor_type "" || crates.can_block)

-- What a pass leaves: the states, the messages to the cloud, the local posts, and whether it got to its
-- end.
pub record Pass (io : Io) : Type 0 where
  pub world : io.World
  pub states : Dict String MonitorState
  pub messages : List (String × String)
  pub posts : List (Monitor × String)
  pub alive : Bool

module _ (io : Io) (crates : Crates) where
  open io use {World, read_bytes, now_millis}

  unfoldable pub take_turn : Monitor → ℕ → MonitorState → World → Turn × World
  take_turn m now state w =
      if state.running
      then (done state none, w)
      else if should_read m state now
      then (let (result, w') =
            read_bytes m.ip m.port m.db_number (m.offset % 65536) (read_size m % 65536) w in
          (after_read crates m now result (record state { running = true }), w'))
      else (resend m now state, w)

  unfoldable pub record_turn : Monitor → Turn × World → Pass io → Pass io
  record_turn m (panicked state, w) p = record p {
    world = w;
    states = Dict.insert m.id state p.states;
    alive = false;
  }
  record_turn m (done state none, w) p = record p {
    world = w;
    states = Dict.insert m.id state p.states;
  }
  record_turn m (done state (some text), w) p = record p {
    world = w;
    states = Dict.insert m.id state p.states;
    messages = p.messages ++ (("monitorStatus", crates.monitor_json m text) ∷ []);
    posts =
        if str_eq m.local_address ""
        then p.posts
        else if can_post crates m
        then p.posts ++ ((m, text) ∷ [])
        else p.posts;
    alive = if can_post crates m then p.alive else false;
  }

  -- `for monitor in monitors { … }`; a panic ends the loop
  unfoldable pub trigger_loop : ℕ → List Monitor → Pass io → Pass io
  unfolding take_turn record_turn
  trigger_loop now [] p = p
  trigger_loop now (m ∷ monitors) p =
      let state = unwrap_or (Dict.get m.id p.states) idle in
      let p' = record_turn m (take_turn m now state p.world) p in
      let rest = trigger_loop now monitors p' in if p'.alive then rest else p'

  unfoldable pub trigger_monitors_direct : List Monitor → Dict String MonitorState → World → Pass io
  unfolding trigger_loop
  trigger_monitors_direct monitors states w =
      let (now, w') = now_millis w in
      trigger_loop now monitors
        (record { world = w'; states = states; messages = []; posts = []; alive = true })
