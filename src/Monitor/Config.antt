-- ===== src/Monitor/Config.antt =====
-- The configuration of a monitor and the set of active monitors (`Monitor`, `update_monitors`).
pub mod Update
pub mod Parse
pub mod Keep
use filling_pilot_edge_rs.Common.{
  ℕ, String, ◌≡◌, ◌↔◌, refl, Bool, true, false, ◌&&◌, not, List, [], ◌∷◌, ◌==◌, str_eq, eq_iff,
  arith, subst, filterb, if◌then◌else◌, Option,
}
use filling_pilot_edge_rs.Common.Eq.{Eq, String_eq}
use filling_pilot_edge_rs.Common.Dict
use filling_pilot_edge_rs.Common.Dict.{Dict}

pub record Monitor : Type 0 where
  pub id : String
  pub merchant_id : String
  pub ip : String
  pub port : ℕ  -- u16
  pub name : String
  pub code : String
  pub db_number : ℕ  -- u16
  pub offset : ℕ  -- u32
  pub block_size : ℕ  -- u32
  pub monitor_type : String
  pub frequency : ℕ  -- u64, in ms
  pub resend_interval : ℕ  -- u64, in ms
  pub forward_address : String
  pub local_address : String

-- the derived `PartialEq`
unfoldable pub monitor_eq : Monitor → Monitor → Bool
monitor_eq a b =
    str_eq a.id b.id
    && str_eq a.merchant_id b.merchant_id
    && str_eq a.ip b.ip
    && a.port == b.port
    && str_eq a.name b.name
    && str_eq a.code b.code
    && a.db_number == b.db_number
    && a.offset == b.offset
    && a.block_size == b.block_size
    && str_eq a.monitor_type b.monitor_type
    && a.frequency == b.frequency
    && a.resend_interval == b.resend_interval
    && str_eq a.forward_address b.forward_address
    && str_eq a.local_address b.local_address

monitor_eq_refl : (a : Monitor) → monitor_eq a a ≡ true
unfolding monitor_eq
monitor_eq_refl a = ground (
  arith,
  eq_iff a.id a.id,
  eq_iff a.merchant_id a.merchant_id,
  eq_iff a.ip a.ip,
  eq_iff a.name a.name,
  eq_iff a.code a.code,
  eq_iff a.monitor_type a.monitor_type,
  eq_iff a.forward_address a.forward_address,
  eq_iff a.local_address a.local_address,
)

monitor_eq_sound : (a b : Monitor) → monitor_eq a b ≡ true → a ≡ b
unfolding monitor_eq
monitor_eq_sound a b h = ground (
  arith,
  eq_iff a.id b.id,
  eq_iff a.merchant_id b.merchant_id,
  eq_iff a.ip b.ip,
  eq_iff a.name b.name,
  eq_iff a.code b.code,
  eq_iff a.monitor_type b.monitor_type,
  eq_iff a.forward_address b.forward_address,
  eq_iff a.local_address b.local_address,
)

pub monitor_eq_correct : (a b : Monitor) → (monitor_eq a b ≡ true) ↔ (a ≡ b)
monitor_eq_correct a b =
    (monitor_eq_sound a b, λ p. subst (λ x. monitor_eq a x ≡ true) p (monitor_eq_refl a))

instance abbrev pub Monitor_eq : Eq Monitor
Monitor_eq = record { eqb = monitor_eq; eqb_iff = monitor_eq_correct }

-- `MonitorState`
pub record MonitorState : Type 0 where
  pub last_read_time : Option ℕ
  pub last_send_time : Option ℕ
  pub text : String  -- the field `data`: the last block, in hexadecimal
  pub running : Bool

-- What the processor changes: the set of monitors, their states, and the stations for callbacks.
pub record MonitorProcessor : Type 0 where
  pub monitors : List Monitor
  pub states : Dict String MonitorState
  pub fill_stations : Dict String (String × ℕ)

-- `into_iter().collect::<HashSet<_>>()`
unfoldable pub monitor_set : List Monitor → List Monitor
monitor_set [] = []
monitor_set (m ∷ ms) = let rest = monitor_set ms in if Dict.contains m rest then rest else m ∷ rest

-- `a.difference(&b)`
abbrev pub monitor_difference : List Monitor → List Monitor → List Monitor
monitor_difference a b = filterb (λ m. not (Dict.contains m b)) a

-- `monitors.remove(&m)`
abbrev pub without : Monitor → List Monitor → List Monitor
without m = filterb (λ x. not (monitor_eq m x))

unfoldable pub remove_monitors : List Monitor → MonitorProcessor → MonitorProcessor
remove_monitors [] p = p
remove_monitors (m ∷ to_remove) p =
    remove_monitors to_remove
      (record p { monitors = without m p.monitors; states = Dict.remove m.id p.states })

-- `monitors.insert(m)`
unfoldable pub insert_monitor : Monitor → MonitorProcessor → MonitorProcessor
insert_monitor m p = record p {
  monitors = if Dict.contains m p.monitors then p.monitors else m ∷ p.monitors;
}

unfoldable pub insert_monitors : List Monitor → MonitorProcessor → MonitorProcessor
insert_monitors [] p = p
insert_monitors (m ∷ to_add) p = insert_monitors to_add (insert_monitor m p)

unfoldable pub update_monitors : List Monitor → MonitorProcessor → MonitorProcessor
unfolding remove_monitors insert_monitors
update_monitors new_monitors p =
    let new_set = monitor_set new_monitors in
    let kept = remove_monitors (monitor_difference p.monitors new_set) p in
    insert_monitors (monitor_difference new_set kept.monitors) kept

unfoldable pub update_fill_stations :
    List (String × String × ℕ) → MonitorProcessor → MonitorProcessor
update_fill_stations [] p = p
update_fill_stations ((id, ip, port) ∷ stations) p =
    update_fill_stations stations
      (record p { fill_stations = Dict.insert id (ip, port) p.fill_stations })
