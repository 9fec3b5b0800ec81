-- ===== src/Monitor/Turn/Safety.antt =====
-- When a pass gets to its end.
use filling_pilot_edge_rs.Common.{
  ℕ, ◌≤◌, ◌<◌, ◌≡◌, refl, true, false, none, some, List, [], ◌∷◌, String, All, Bool-cases,
  Option-cases, inl, inr, unwrap_or, str_eq, eq_iff, ap, ◌%◌, ◌&&◌, not, if-true, ◌∙◌,
}
use filling_pilot_edge_rs.Common.Dict
use filling_pilot_edge_rs.Common.Dict.{Dict}
use filling_pilot_edge_rs.Common.Eq.{String_eq}
use filling_pilot_edge_rs.Error.{Error, Result, ok, err}
use filling_pilot_edge_rs.Io.{Io}
use filling_pilot_edge_rs.Monitor.Config.{Monitor, MonitorState}
use filling_pilot_edge_rs.Monitor.Turn.{
  Crates, Turn, done, panicked, idle, should_read, should_resend, resend, compare_block, with_block,
  can_post, after_read, take_turn, Pass, record_turn, trigger_loop, trigger_monitors_direct,
  read_size,
}
use filling_pilot_edge_rs.Monitor.Turn.Block.{full_block-some, full_block-none}

-- The offset of a monitor lies within its block, and its posts do not block a thread that must not be
-- blocked.
abbrev pub IsSafe : Crates → Monitor → Type 0
IsSafe crates m = (m.offset ≤ m.block_size) × (can_post crates m ≡ true)

abbrev IsIdle : String → MonitorState → Type 0
IsIdle id state = state.running ≡ false

-- No monitor is marked as running.
abbrev pub AllIdle : Dict String MonitorState → Type 0
AllIdle = Dict.AllEntries IsIdle

abbrev EndsIdle : Turn → Type 0
EndsIdle (panicked after) = ⊥
EndsIdle (done after sent) = after.running ≡ false

resend-EndsIdle :
    (m : Monitor) (now : ℕ) (state : MonitorState)
    → state.running ≡ false
    → EndsIdle (resend m now state)
unfolding resend
resend-EndsIdle m now state h =
    elim (Bool-cases (should_resend m state now && not (str_eq state.text ""))) [
      | inl again ↦ rw again h
      | inr quiet ↦ rw quiet h
    ]

compare_block-EndsIdle :
    (m : Monitor) (now : ℕ) (text : String) (state : MonitorState)
    → EndsIdle (compare_block m now text state)
unfolding compare_block
compare_block-EndsIdle m now text state = elim (Bool-cases (str_eq text state.text)) [
  | inl same ↦ simp same (resend-EndsIdle m now (record state { running = false }) refl)
  | inr other ↦ simp other refl
]

after_read-EndsIdle :
    (crates : Crates) (m : Monitor) (now : ℕ) (r : Result (List ℕ) Error) (state : MonitorState)
    → m.offset ≤ m.block_size
    → EndsIdle (after_read crates m now r state)
unfolding after_read with_block
after_read-EndsIdle crates m now (ok bytes) state h =
    rw (full_block-some m.block_size m.offset bytes h)
      (compare_block-EndsIdle m now _ (record state { last_read_time = some now }))
after_read-EndsIdle crates m now (err e) state h =
    resend-EndsIdle m now (record state { running = false }) refl

module _ (io : Io) (crates : Crates) where
  take_turn-EndsIdle :
      (m : Monitor) (now : ℕ) (state : MonitorState) (w : io.World)
      → m.offset ≤ m.block_size
      → state.running ≡ false
      → EndsIdle (take_turn io crates m now state w).0
  unfolding take_turn
  take_turn-EndsIdle m now state w h r = simp r (elim (Bool-cases (should_read m state now)) [
    | inl due ↦ simp due (after_read-EndsIdle crates m now _ _ h)
    | inr early ↦ simp early (resend-EndsIdle m now state r)
  ])

  abbrev Sound : Pass io → Type 0
  Sound p = (p.alive ≡ true) × AllIdle p.states

  record_turn-Sound :
      (m : Monitor) (t : Turn) (w : io.World) (p : Pass io)
      → can_post crates m ≡ true
      → EndsIdle t
      → Sound p
      → Sound (record_turn io crates m (t, w) p)
  unfolding record_turn
  record_turn-Sound m (panicked state) w p c t s = absurd t
  record_turn-Sound m (done state none) w p c t s =
      (s.0, Dict.insert-AllEntries IsIdle m.id state p.states t s.1)
  record_turn-Sound m (done state (some text)) w p c t s = (
    if-true (can_post crates m) p.alive false c ∙ s.0,
    Dict.insert-AllEntries IsIdle m.id state p.states t s.1,
  )

  get-IsIdle :
      (id : String) (states : Dict String MonitorState)
      → AllIdle states
      → (unwrap_or (Dict.get id states) idle).running ≡ false
  get-IsIdle id states h = elim (Option-cases (Dict.get id states)) [
    | inl missing ↦ rw missing
    | inr found ↦ rw found.1 (Dict.get-AllEntries IsIdle id states found.0 h found.1)
  ]

  trigger_loop-Sound :
      (now : ℕ) (monitors : List Monitor) (p : Pass io)
      → All (IsSafe crates) monitors
      → Sound p
      → Sound (trigger_loop io crates now monitors p)
  unfolding trigger_loop
  trigger_loop-Sound now [] p h s = s
  trigger_loop-Sound now (m ∷ monitors) p h s =
      let state = unwrap_or (Dict.get m.id p.states) idle in
      let ends = take_turn-EndsIdle m now state p.world h.0.0 (get-IsIdle m.id p.states s.1) in
      let p' = record_turn io crates m (take_turn io crates m now state p.world) p in
      let sound : Sound p' = record_turn-Sound m _ _ p h.0.1 ends s in
      rw (sound.0) (trigger_loop-Sound now monitors p' h.1 sound)

  -- If the offset of every monitor lies within its block, and no monitor has both a local address and a
  -- type on a thread that must not be blocked, a pass over any states that are not marked as running gets
  -- to its end, whatever the PLCs and the clock answer, and leaves no state marked.
  pub trigger_monitors_completes :
      (monitors : List Monitor) (states : Dict String MonitorState) (w : io.World)
      → All (IsSafe crates) monitors
      → AllIdle states
      → ((trigger_monitors_direct io crates monitors states w).alive ≡ true)
        × AllIdle (trigger_monitors_direct io crates monitors states w).states
  unfolding trigger_monitors_direct
  trigger_monitors_completes monitors states w h s = trigger_loop-Sound _ monitors _ h (refl, s)

  after_read-panics :
      (m : Monitor) (now : ℕ) (r : Result (List ℕ) Error) (bytes : List ℕ) (state : MonitorState)
      → r ≡ ok bytes
      → m.block_size < m.offset
      → after_read crates m now r state ≡ panicked (record state { last_read_time = some now })
  unfolding after_read
  after_read-panics m now (ok bytes') bytes state e h =
      rw (full_block-none m.block_size m.offset bytes' h)
  after_read-panics m now (err x) bytes state e h = cc

  take_turn-panics :
      (m : Monitor) (now : ℕ) (state : MonitorState) (w : io.World) (bytes : List ℕ)
      → m.block_size < m.offset
      → state.running ≡ false
      → should_read m state now ≡ true
      → (io.read_bytes m.ip m.port m.db_number (m.offset % 65536) (read_size m % 65536) w).0
        ≡ ok bytes
      → take_turn io crates m now state w ≡ (
        panicked (record state { running = true; last_read_time = some now }),
        (io.read_bytes m.ip m.port m.db_number (m.offset % 65536) (read_size m % 65536) w).1,
      )
  unfolding take_turn
  take_turn-panics m now state w bytes h r due e =
      simp (r, due)
        (ap {B = Turn × io.World}
          (λ t. (
            t,
            (io.read_bytes m.ip m.port m.db_number (m.offset % 65536) (read_size m % 65536) w).1,
          ))
          (after_read-panics m now _ bytes (record state { running = true }) e h))

  -- A monitor whose offset is past its block ends the pass as soon as it is due and its read succeeds:
  -- no message comes of it or of the monitors behind it, and its state stays marked as running.
  pub bad_offset_ends_pass :
      (now : ℕ) (m : Monitor) (monitors : List Monitor) (p : Pass io) (bytes : List ℕ)
      → m.block_size < m.offset
      → (unwrap_or (Dict.get m.id p.states) idle).running ≡ false
      → should_read m (unwrap_or (Dict.get m.id p.states) idle) now ≡ true
      → (io.read_bytes m.ip m.port m.db_number (m.offset % 65536) (read_size m % 65536) p.world).0
        ≡ ok bytes
      → let after = trigger_loop io crates now (m ∷ monitors) p in
        (after.alive ≡ false)
        × (after.messages ≡ p.messages)
        × ((unwrap_or (Dict.get m.id after.states) idle).running ≡ true)
  unfolding trigger_loop
  bad_offset_ends_pass now m monitors p bytes h r due e =
      rw (take_turn-panics m now _ p.world bytes h r due e) (
        unfold record_turn in
        (refl, refl, rw (Dict.get-insert m.id m.id) (rw ((eq_iff m.id m.id).1 refl))))

  -- A local post of a monitor that has a local address and no type.
  abbrev pub IsUntyped : Monitor × String → Type 0
  IsUntyped (m, text) = (str_eq m.local_address "" ≡ false) × (str_eq m.monitor_type "" ≡ true)
