-- ===== src/Logger.antt =====
-- The logger (src/logger.rs): lines to a UDP server, whose address is resolved once.
use Prim.Native.String.{◌++◌ as ◌<>◌}
use filling_pilot_edge_rs.Common.{
  ℕ, ◌+◌, ◌-◌, ◌%◌, ◌≡◌, refl, String, Option, none, some, List, [], ◌∷◌, map, All, arith,
}
use filling_pilot_edge_rs.Common.Bytes.{IsByte}
use mathlib.Core.Path.{ap₂}

-- `255u8.wrapping_sub(b)`
abbrev wrapping_complement : ℕ → ℕ
wrapping_complement b = (255 + 256 - b) % 256

-- `log_line.bytes().map(|b| 255u8.wrapping_sub(b)).collect()`
unfoldable pub encode_line : List ℕ → List ℕ
encode_line = map wrapping_complement

-- The network: the resolution of the log host, and a datagram from a socket of its own, whose errors are
-- ignored; and the bytes of a text.
pub record Udp : Type 1 where
  pub Addr : Type 0
  pub Net : Type 0
  pub to_socket_addr : String → Net → Option Addr × Net
  pub send_to : List ℕ → Addr → Net → Net
  pub bytes_of : String → List ℕ
  pub bytes_of-IsByte : (s : String) → All IsByte (bytes_of s)

-- `LOG_HOST` and `LOG_PORT`
abbrev pub log_address : String
log_address = "iotlog.doublechaintech.com:54321"

-- The line of a message at a date.
abbrev pub log_line : String → String → String → String → String
log_line id date name message =
    "[" <> (id <> ("] [" <> (date <> ("] " <> (name <> (": " <> message))))))

module _ (udp : Udp) where
  open udp use {Addr, Net}

  -- `Logger`
  pub record Logger : Type 0 where
    pub id : String
    pub addr : Option Addr

  -- `Logger::new`
  abbrev pub new : String → Logger
  new id = record { id = id; addr = none }

  abbrev pub resolved : Option Addr × Net → Logger → Option Addr × Logger × Net
  resolved (none, net) l = (none, l, net)
  resolved (some a, net) l = (some a, record l { addr = some a }, net)

  abbrev pub resolve_from : Option Addr → Logger → Net → Option Addr × Logger × Net
  resolve_from (some a) l net = (some a, l, net)
  resolve_from none l net = resolved (udp.to_socket_addr log_address net) l

  unfoldable pub resolve_addr : Logger → Net → Option Addr × Logger × Net
  resolve_addr l net = resolve_from l.addr l net

  abbrev pub send_line : String → Option Addr × Logger × Net → Logger × Net
  send_line line (none, l, net) = (l, net)
  send_line line (some a, l, net) = (l, udp.send_to (encode_line (udp.bytes_of line)) a net)

  -- `Logger::log`, at a date as a text
  unfoldable pub log : String → String → String → Logger → Net → Logger × Net
  unfolding resolve_addr encode_line
  log date name message l net = send_line (log_line l.id date name message) (resolve_addr l net)

-- The remote logger gets the bytes of the line back by the same operation, and what is sent are bytes.
pub encode_line-encode_line :
    (bytes : List ℕ)
    → All IsByte bytes
    → (encode_line (encode_line bytes) ≡ bytes) × All IsByte (encode_line bytes)
unfolding encode_line
encode_line-encode_line [] h = (refl, tt)
encode_line-encode_line (b ∷ bytes) h =
    let (rest, sent) = encode_line-encode_line bytes h.1 in
    let back : wrapping_complement (wrapping_complement b) ≡ b = omega (arith, h.0) in
    (ap₂ (λ x y. x ∷ y) back rest, (omega arith, sent))

module _ (udp : Udp) where
  -- What a log call of the message does once the address is known.
  abbrev pub SendsTo : udp.Addr → String → Logger udp → udp.Net → Logger udp × udp.Net → Type 0
  SendsTo a line l net after =
      (sent : List ℕ) × (after ≡ (l, udp.send_to sent a net))
      × (encode_line sent ≡ udp.bytes_of line)
      × All IsByte sent

  log-known :
      (date name message : String) (l : Logger udp) (net : udp.Net) (a : udp.Addr)
      → l.addr ≡ some a
      → SendsTo a (log_line l.id date name message) l net (log udp date name message l net)
  unfolding log resolve_addr
  log-known date name message l net a e =
      let bytes = udp.bytes_of (log_line l.id date name message) in
      let (back, sent) = encode_line-encode_line bytes (udp.bytes_of-IsByte _) in
      (encode_line bytes, rw e refl, back, sent)

  -- A logger that has no address yet, and whose host is resolved, sends its first message to the address;
  -- a second message, whatever the network does in between, is one datagram to the same address, and the
  -- host is not resolved again. The server gets the line of each by decoding the datagram.
  pub log-resolves_once :
      (date name message later name' message' : String) (l : Logger udp)
      (net net' meanwhile : udp.Net) (a : udp.Addr)
      → l.addr ≡ none
      → udp.to_socket_addr log_address net ≡ (some a, net')
      → let first = log udp date name message l net in
        SendsTo a (log_line l.id date name message) (record l { addr = some a }) net' first
        × SendsTo a
            (log_line l.id later name' message')
            (record l { addr = some a })
            meanwhile
            (log udp later name' message' first.0 meanwhile)
  unfolding log resolve_addr
  log-resolves_once date name message later name' message' l net net' meanwhile a e r =
      let bytes = udp.bytes_of (log_line l.id date name message) in
      let (back, sent) = encode_line-encode_line bytes (udp.bytes_of-IsByte _) in
      let known = log-known later name' message' (record l { addr = some a }) meanwhile a refl in
      rw (e, r) ((encode_line bytes, refl, back, sent), known)
