-- ===== src/Cloud/Loops/Steps/WellFormed.antt =====
-- The invariant of a session.
use filling_pilot_edge_rs.Common.{
  ◌≡◌, ◌<◌, sym, subst, Bool, true, false, List, [], ◌∷◌, All, All-append, String,
}
use filling_pilot_edge_rs.Cloud.Types.{CloudCrates, PlcResponse, EcnInfo}
use filling_pilot_edge_rs.Cloud.Session.{CloudSession, signature}
use filling_pilot_edge_rs.Cloud.Session.Signed.{Sends, IsFrom, heard}
use filling_pilot_edge_rs.Common.Int.{ℤ}
use filling_pilot_edge_rs.Monitor.Config.Parse.{IsConfigured}
use filling_pilot_edge_rs.Report.Cache.Bounds.{IsBounded}
use filling_pilot_edge_rs.Report.Cache.ColdStart.{IsCold}
use filling_pilot_edge_rs.S7.Crate.{S7Crate}

module _ {s7 : S7Crate} (crates : CloudCrates s7) where
  -- A message or an info has the node's id, and the signature of its own random number.
  abbrev pub IsSigned : String → String → String × ℤ × String → Type 0
  IsSigned id key (from, n, sign) = (from ≡ id) × (sign ≡ signature crates key n)

  abbrev pub IsSignedResponse : String → String → PlcResponse → Type 0
  IsSignedResponse id key r = IsSigned id key (r.id, r.random_number, r.sign)

  abbrev pub IsSignedInfo : String → String → EcnInfo → Type 0
  IsSignedInfo id key i = IsSigned id key (i.id, i.random_number, i.sign)

  abbrev pub AllSigned : CloudSession s7 → Type 0
  AllSigned s =
      All (IsSignedResponse s.id s.private_key) s.outbox
      × All (IsSignedInfo s.id s.private_key) s.greetings

  abbrev pub HasIntervals : CloudSession s7 → Type 0
  HasIntervals s = (0 < s.heart_beat_ms) × (0 < s.report_interval_ms) × (0 < s.status_interval_ms)

  -- The node is that of the session `base`, and its connection is not lost.
  abbrev pub IsSameNode : CloudSession s7 → CloudSession s7 → Type 0
  IsSameNode base s =
      (s.id ≡ base.id)
      × (s.private_key ≡ base.private_key)
      × (base.connected ≡ true → s.connected ≡ true)

  -- The node is that of `base`, what was sent is signed, no interval is zero, no station has more reports than its setting allows,
  -- and the monitors have fields within their widths and intervals that are not below the least ones.
  pub record IsWellFormed (base s : CloudSession s7) : Type 0 where
    pub same_node : IsSameNode base s
    pub signed : AllSigned s
    pub intervals : HasIntervals s
    pub bounded : IsBounded s.report_cache.caches
    pub cold : IsCold base.report_cache.caches → IsCold s.report_cache.caches
    pub configured : All IsConfigured s.monitor_processor.monitors

  signed_of :
      (s : CloudSession s7) (messages : List PlcResponse)
      → All (IsFrom crates s) messages
      → All (IsSignedResponse s.id s.private_key) messages
  signed_of s [] h = tt
  signed_of s (r ∷ messages) ((i, n, g), rest) = ((i, rw n g), signed_of s messages rest)

  heard_of :
      (P : PlcResponse → Type 0) (c : Bool) (messages : List PlcResponse)
      → All P messages
      → All P (heard c messages)
  heard_of P true messages h = h
  heard_of P false messages h = tt

  pub Sends-IsWellFormed :
      (base s t : CloudSession s7) (ids : List String)
      → Sends crates s ids t
      → IsWellFormed base s
      → IsWellFormed base t
  Sends-IsWellFormed base s t ids k h = subst (IsWellFormed base) (sym k.same) (record {
    same_node = h.same_node;
    signed = (
      All-append (IsSignedResponse s.id s.private_key) s.outbox (heard s.connected k.messages)
          h.signed.0
          (heard_of (IsSignedResponse s.id s.private_key) s.connected k.messages
            (signed_of s k.messages k.from)),
      h.signed.1,
    );
    intervals = h.intervals;
    bounded = h.bounded;
    cold = h.cold;
    configured = h.configured;
  })
