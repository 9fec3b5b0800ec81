-- ===== src/Cloud/Session/Signed.antt =====
-- What the session sends: messages in order, each with the id of the node and the signature of the
-- random number that is set when it is sent. Sending changes nothing but the world.
use mathlib.Core.List.{append-nil, append_assoc, map-append}
use mathlib.Core.Path.{ap₂}
use filling_pilot_edge_rs.Common.{
  ◌≡◌, refl, subst, ap, sym, ◌∙◌, String, Bool, true, false, List, [], ◌∷◌, ◌++◌, map, All,
  All-append, if◌then◌else◌,
}
use filling_pilot_edge_rs.Cloud.Types.{CloudCrates, PlcResponse}
use filling_pilot_edge_rs.Cloud.Session.{
  CloudSession, in_world, signature, response, deliver, send_plc_response, send_all, test_plcs,
  test_tcp_connection,
}
use filling_pilot_edge_rs.S7.Crate.{S7Crate}
use filling_pilot_edge_rs.S7.Types.{PlcConfig}

-- The messages that get to the client, if there is one.
abbrev pub heard {ℓ} : {A : Type ℓ} → Bool → List A → List A
heard true messages = messages
heard false messages = []

heard-append : {A : Type 0} (c : Bool) (m n : List A) → heard c (m ++ n) ≡ heard c m ++ heard c n
heard-append true m n = refl
heard-append false m n = refl

heard-none : {A : Type 0} (c : Bool) → heard {A = A} c [] ≡ []
heard-none true = refl
heard-none false = refl

module _ {s7 : S7Crate} (crates : CloudCrates s7) where
  -- A message of the session as it is.
  abbrev pub IsFrom : CloudSession s7 → PlcResponse → Type 0
  IsFrom s r =
      (r.id ≡ s.id)
      × (r.random_number ≡ s.random_number)
      × (r.sign ≡ signature crates s.private_key s.random_number)

  abbrev pub sent : s7.World → List PlcResponse → CloudSession s7 → CloudSession s7
  sent w messages s = record (in_world w s) { outbox = s.outbox ++ messages }

  -- `s'` is `s` after messages of the given PLC ids.
  pub record Sends (s : CloudSession s7) (plc_ids : List String) (s' : CloudSession s7)
      : Type 0 where
    pub messages : List PlcResponse
    pub world : s7.World
    pub same : s' ≡ sent world (heard s.connected messages) s
    pub from : All (IsFrom s) messages
    pub in_order : map (λ r. r.plc_id) messages ≡ plc_ids

  pub Sends-none : (s : CloudSession s7) (w : s7.World) → Sends s [] (in_world w s)
  Sends-none s w = record {
    messages = [];
    world = w;
    same =
        ap (λ o. record (in_world w s) { outbox = o })
          (sym (append-nil s.outbox) ∙ ap (λ m. s.outbox ++ m) (sym (heard-none s.connected)));
    from = tt;
    in_order = refl;
  }

  quiet : (s : CloudSession s7) → s ≡ sent s.s7_manager.world [] s
  quiet s = ap (λ o. record s { outbox = o }) (sym (append-nil s.outbox))

  delivered :
      (r : PlcResponse) (s : CloudSession s7) (w : s7.World) (c : Bool)
      → (if c then sent w (r ∷ []) s else s)
        ≡ sent (if c then w else s.s7_manager.world) (heard c (r ∷ [])) s
  delivered r s w true = refl
  delivered r s w false = quiet s

  pub send_plc_response-Sends :
      (plc_id message_type message : String) (s : CloudSession s7)
      → Sends s (plc_id ∷ []) (send_plc_response crates plc_id message_type message s)
  unfolding send_plc_response deliver response
  send_plc_response-Sends plc_id message_type message s =
      let r = response crates s plc_id message_type message in
      let w = crates.send r s.s7_manager.world in
      record {
        messages = r ∷ [];
        world = if s.connected then w else s.s7_manager.world;
        same = delivered r s w s.connected;
        from = ((refl, refl, refl), tt);
        in_order = refl;
      }

  pub Sends-then :
      {ids js : List String} (s t u : CloudSession s7)
      → Sends s ids t
      → Sends t js u
      → Sends s (ids ++ js) u
  Sends-then s t u a b = record {
    messages = a.messages ++ b.messages;
    world = b.world;
    same =
        b.same
        ∙ ap (λ x. sent b.world (heard x.connected b.messages) x) a.same
        ∙ ap (λ o. record (in_world b.world s) { outbox = o })
            (append_assoc s.outbox (heard s.connected a.messages) (heard s.connected b.messages)
              ∙ ap (λ m. s.outbox ++ m) (sym (heard-append s.connected a.messages b.messages)));
    from =
        All-append (IsFrom s) a.messages b.messages a.from
          (subst (λ x. All (IsFrom x) b.messages) a.same b.from);
    in_order =
        map-append (λ r. r.plc_id) a.messages b.messages
        ∙ ap₂ (λ x y. x ++ y) a.in_order b.in_order;
  }

  pub send_all-Sends :
      (messages : List (String × String)) (s : CloudSession s7)
      → Sends s (map (λ m. "") messages) (send_all crates messages s)
  unfolding send_all
  send_all-Sends [] s = Sends-none s s.s7_manager.world
  send_all-Sends ((message_type, message) ∷ messages) s =
      Sends-then s _ _ (send_plc_response-Sends "" message_type message s)
        (send_all-Sends messages (send_plc_response crates "" message_type message s))

  -- A test of every PLC sends one message for each, in order, and changes nothing else.
  pub test_plcs-Sends :
      (plcs : List PlcConfig) (s : CloudSession s7)
      → Sends s (map (λ plc. plc.id) plcs) (test_plcs crates plcs s).1
  unfolding test_plcs test_tcp_connection
  test_plcs-Sends [] s = Sends-none s s.s7_manager.world
  test_plcs-Sends (plc ∷ plcs) s =
      let (reached, s') = test_tcp_connection crates plc.ip plc.port s in
      let answered =
        send_plc_response crates plc.id (if reached then "plcInfo" else "plcInfoFail")
          (if reached then "ok" else "failed") s' in
      Sends-then s answered _
        (Sends-then s s' answered (Sends-none s _) (send_plc_response-Sends plc.id _ _ s'))
        (test_plcs-Sends plcs answered)
