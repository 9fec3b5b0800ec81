-- ===== src/Monitor/Disk/Restart.antt =====
-- What a restart makes of the file of the monitors.
use filling_pilot_edge_rs.Common.{◌^◌, ◌≡◌, refl, true, false, none, some, List, ◌∷◌, All, arith}
use filling_pilot_edge_rs.Common.Dict
use filling_pilot_edge_rs.Common.Eq.{String_eq}
use filling_pilot_edge_rs.Files.{Files, Persists, load_text-persist_value}
use filling_pilot_edge_rs.Json.{Json, object, array}
use filling_pilot_edge_rs.Json.Derive.{
  of_list, text_value-of_text, unsigned_value-of_unsigned, list_value-of_list,
}
use filling_pilot_edge_rs.Monitor.Config.{Monitor, MonitorProcessor, insert_monitors}
use filling_pilot_edge_rs.Monitor.Config.Parse.{IsConfigured}
use filling_pilot_edge_rs.Monitor.Disk.{
  new, monitor_fields, monitor_value, monitor_from, monitor_of, persist_path, load_monitors,
  persist_monitors, load_from_disk, persistence_round,
}

module _ (json : Json) where
  monitor_from-monitor_fields :
      (m : Monitor) → IsConfigured m → monitor_from json (monitor_fields json m) ≡ some m
  unfolding monitor_from monitor_fields Dict.get
  monitor_from-monitor_fields m h =
      rw
        (
          text_value-of_text json m.id,
          text_value-of_text json m.merchant_id,
          text_value-of_text json m.ip,
          text_value-of_text json m.name,
          text_value-of_text json m.code,
          text_value-of_text json m.monitor_type,
          text_value-of_text json m.forward_address,
          text_value-of_text json m.local_address,
          unsigned_value-of_unsigned json (2 ^ 16) m.port h.port_fits (omega (arith, h.port_fits)),
          unsigned_value-of_unsigned json (2 ^ 16) m.db_number h.db_number_fits
              (omega (arith, h.db_number_fits)),
          unsigned_value-of_unsigned json (2 ^ 32) m.offset h.offset_fits
              (omega (arith, h.offset_fits)),
          unsigned_value-of_unsigned json (2 ^ 32) m.block_size h.block_size_fits
              (omega (arith, h.block_size_fits)),
          unsigned_value-of_unsigned json (2 ^ 64) m.frequency h.frequency_fits h.frequency_fits,
          unsigned_value-of_unsigned json (2 ^ 64) m.resend_interval h.resend_fits h.resend_fits,
        )
        refl

  monitor_of-monitor_value :
      (m : Monitor) → IsConfigured m → monitor_of json (monitor_value json m) ≡ some m
  unfolding monitor_of monitor_value
  monitor_of-monitor_value m h =
      rw (json.view-make (object (monitor_fields json m))) (monitor_from-monitor_fields m h)

module _ (json : Json) (files : Files json.Value) where
  open files use {Disk}

  -- The file of the monitors can be written and read.
  abbrev pub CanPersist : List Monitor → Disk → Type 0
  CanPersist monitors d =
      Persists files (persist_path json files)
        (json.make (array (of_list json (monitor_value json) monitors))) d

  -- The monitors that are kept in a file that is written are those that are loaded from it, in order.
  pub load_monitors-persist_monitors :
      (m : Monitor) (monitors : List Monitor) (d : Disk)
      → All IsConfigured (m ∷ monitors)
      → CanPersist (m ∷ monitors) d
      → load_monitors json files (persist_monitors json files (m ∷ monitors) d) ≡ m ∷ monitors
  unfolding load_monitors persist_monitors
  load_monitors-persist_monitors m monitors d fit w =
      rw
        (
          load_text-persist_value files _ _ d w,
          w.parsed,
          list_value-of_list json IsConfigured (monitor_of json) (monitor_value json)
              (monitor_of-monitor_value json) (m ∷ monitors) fit,
        )
        refl

  -- A load on a thread of the runtime that does not panic has found no monitors.
  pub load_from_disk-same :
      (d : Disk) (p q : MonitorProcessor) → load_from_disk json files true d p ≡ some q → q ≡ p
  unfolding load_from_disk
  load_from_disk-same d p q h = ground arith

  -- Once a set of monitors is in the file, the next start of the node panics where it loads them on a
  -- thread of the runtime, and it would have them again on another thread.
  pub restart_panics :
      (m : Monitor) (monitors : List Monitor) (p : MonitorProcessor) (d : Disk)
      → p.monitors ≡ m ∷ monitors
      → All IsConfigured (m ∷ monitors)
      → CanPersist (m ∷ monitors) d
      → (load_from_disk json files true (persistence_round json files p d) new ≡ none)
        × (load_from_disk json files false (persistence_round json files p d) new
            ≡ some (insert_monitors (m ∷ monitors) new))
  unfolding load_from_disk persistence_round
  restart_panics m monitors p d e fit w =
      rw (e, load_monitors-persist_monitors m monitors d fit w) (refl, refl)
