-- ===== src/Monitor/Turn/Sends.antt =====
-- What a turn sends, and when it reads.
use filling_pilot_edge_rs.Common.{
  ℕ, ◌+◌, ◌≤◌, ◌<◌, ◌^◌, ◌≡◌, refl, true, false, Option, none, some, List, arith, String,
  Bool-cases, inl, inr, str_eq, not, ◌&&◌, ◌∙◌,
}
use filling_pilot_edge_rs.Error.{Error, Result, ok, err}
use filling_pilot_edge_rs.Io.{Io}
use filling_pilot_edge_rs.Monitor.Config.{Monitor, MonitorState}
use filling_pilot_edge_rs.Monitor.Turn.{
  Crates, Turn, done, panicked, should_read, should_resend, resend, compare_block, with_block,
  after_read, full_block, take_turn,
}

-- A turn of a monitor from the state `before`, at the time `now`.
abbrev pub Outcome : MonitorState → ℕ → Turn → Type 0
Outcome before now (panicked after) = Unit
Outcome before now (done after none) =
    (after.text ≡ before.text)
    × (after.last_send_time ≡ before.last_send_time)
    × (after.running ≡ false)
Outcome before now (done after (some text)) =
    (text ≡ after.text) × (after.last_send_time ≡ some now) × (after.running ≡ false)

resend-Outcome :
    (m : Monitor) (now : ℕ) (before state : MonitorState)
    → state.running ≡ false
    → state.text ≡ before.text
    → state.last_send_time ≡ before.last_send_time
    → Outcome before now (resend m now state)
unfolding resend
resend-Outcome m now before state r t l =
    elim (Bool-cases (should_resend m state now && not (str_eq state.text ""))) [
      | inl again ↦ rw again (refl, refl, r)
      | inr quiet ↦ rw quiet (t, l, r)
    ]

compare_block-Outcome :
    (m : Monitor) (now : ℕ) (text : String) (before state : MonitorState)
    → state.text ≡ before.text
    → state.last_send_time ≡ before.last_send_time
    → Outcome before now (compare_block m now text state)
unfolding compare_block
compare_block-Outcome m now text before state t l = elim (Bool-cases (str_eq text state.text)) [
  | inl same ↦ rw same (resend-Outcome m now before (record state { running = false }) refl t l)
  | inr other ↦ rw other (refl, refl, refl)
]

with_block-Outcome :
    (crates : Crates) (m : Monitor) (now : ℕ) (block : Option (List ℕ))
    (before state : MonitorState)
    → state.text ≡ before.text
    → state.last_send_time ≡ before.last_send_time
    → Outcome before now (with_block crates m now block state)
unfolding with_block
with_block-Outcome crates m now none before state t l = tt
with_block-Outcome crates m now (some full) before state t l =
    compare_block-Outcome m now (crates.hex_encode full) before state t l

after_read-Outcome :
    (crates : Crates) (m : Monitor) (now : ℕ) (r : Result (List ℕ) Error) (before : MonitorState)
    → Outcome before now (after_read crates m now r (record before { running = true }))
unfolding after_read
after_read-Outcome crates m now (ok bytes) before =
    with_block-Outcome crates m now (full_block m.block_size m.offset bytes) before
      (record before { running = true; last_read_time = some now }) refl refl
after_read-Outcome crates m now (err e) before =
    resend-Outcome m now before (record before { running = false }) refl refl refl

module _ (io : Io) (crates : Crates) (m : Monitor) (now : ℕ) (w : io.World) where
  -- A turn of a monitor that is not marked as running, whatever the PLC answers: if it sends nothing,
  -- the stored text and the time of the last message stay; if it sends, it sends the text that it
  -- stores, and stamps the time. Unless it panics, it ends with the mark taken off.
  pub take_turn-Outcome :
      (before : MonitorState)
      → before.running ≡ false
      → Outcome before now (take_turn io crates m now before w).0
  unfolding take_turn
  take_turn-Outcome before r = simp r (elim (Bool-cases (should_read m before now)) [
    | inl due ↦ simp due (after_read-Outcome crates m now _ before)
    | inr early ↦ simp early (resend-Outcome m now before before r refl refl)
  ])

abbrev pub reads_at : Turn → Option ℕ
reads_at (done after sent) = after.last_read_time
reads_at (panicked after) = after.last_read_time

reads_at-resend :
    (m : Monitor) (now : ℕ) (state : MonitorState)
    → reads_at (resend m now state) ≡ state.last_read_time
unfolding resend
reads_at-resend m now state = ground arith

not_due_yet :
    (m : Monitor) (state : MonitorState) (now t : ℕ)
    → state.last_read_time ≡ some t
    → t ≤ now
    → now < 2 ^ 64
    → now < t + m.frequency
    → should_read m state now ≡ false
unfolding should_read
not_due_yet m state now t e lo hi early = ground arith

-- Between two reads of a monitor lies its frequency: until then a turn does not call the PLC, and keeps
-- the time of the last read.
pub frequency_respected :
    (io : Io) (crates : Crates) (m : Monitor) (now t : ℕ) (w : io.World) (state : MonitorState)
    → state.last_read_time ≡ some t
    → t ≤ now
    → now < 2 ^ 64
    → now < t + m.frequency
    → ((take_turn io crates m now state w).1 ≡ w)
      × (reads_at (take_turn io crates m now state w).0 ≡ some t)
unfolding take_turn
frequency_respected io crates m now t w state e lo hi early =
    let not_due = not_due_yet m state now t e lo hi early in
    elim (Bool-cases state.running) [
      | inl busy ↦ simp busy (refl, e)
      | inr free ↦ simp (free, not_due) (refl, reads_at-resend m now state ∙ e)
    ]
