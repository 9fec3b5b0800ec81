-- ===== src/Monitor/Post/Blocking.antt =====
-- The test by which a pass of the monitors knows whether the post of a monitor panics (`can_post`), and
-- the post itself (`send_local_http_post`).
use filling_pilot_edge_rs.Common.{
  ℕ, ◌≡◌, refl, sym, ◌∙◌, ◌||◌, String, Bool, true, false, none, List, str_eq,
}
use filling_pilot_edge_rs.Common.Dict.{Dict}
use filling_pilot_edge_rs.Deploy.Meta.{MetaDefinition}
use filling_pilot_edge_rs.Deploy.Write.{DeployCrates}
use filling_pilot_edge_rs.Error.{ok}
use filling_pilot_edge_rs.Files.{Files}
use filling_pilot_edge_rs.Monitor.Config.{Monitor}
use filling_pilot_edge_rs.Monitor.Post.{
  HttpClient, decoded_fields, request_fields, send_local_http_post,
}
use filling_pilot_edge_rs.Monitor.Turn.{Crates, can_post}
use filling_pilot_edge_rs.Processor.{HexCrate}
use filling_pilot_edge_rs.S7.Crate.{S7Crate}
use filling_pilot_edge_rs.S7.Pool.{S7Manager}

none_holds : (a b c : Bool) → a || (b || c) ≡ false → (a ≡ false) × (b ≡ false) × (c ≡ false)
none_holds true b c h = absurd (cc)
none_holds false true c h = absurd (cc)
none_holds false false c h = (refl, refl, h)

module _ (turn : Crates) (crates : DeployCrates) (hex : HexCrate)
    (one_runtime : turn.can_block ≡ crates.can_block) where
  open crates.codec.json use {Value}

  -- Where a pass does not go on, the post of a hexadecimal text panics.
  send_local_http_post-panics :
      (files : Files Value) {s7 : S7Crate} (client : HttpClient s7.World) (m : Monitor)
      (text : String) (bytes : List ℕ) (cache : Dict String MetaDefinition)
      (stations : Dict String (String × ℕ)) (p : S7Manager s7)
      → hex.decode text ≡ ok bytes
      → can_post turn m ≡ false
      → send_local_http_post crates hex files client m text cache stations p ≡ none
  unfolding send_local_http_post request_fields decoded_fields
  send_local_http_post-panics files client m text bytes cache stations p d h =
      let (l, t, c) =
        none_holds (str_eq m.local_address "") (str_eq m.monitor_type "") turn.can_block h in
      let blocked : crates.can_block ≡ false = sym one_runtime ∙ c in rw (l, t, d, blocked) refl
