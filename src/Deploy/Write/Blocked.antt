-- ===== src/Deploy/Write/Blocked.antt =====
-- Deployments and callbacks on a thread that must not be blocked.
use filling_pilot_edge_rs.Common.{
  ℕ, ◌≡◌, refl, String, Bool, true, false, ◌&&◌, ◌||◌, Option, none, some, List, [], ◌∷◌, str_eq,
  unwrap_or, if◌then◌else◌, Bool-cases, inl, inr,
}
use filling_pilot_edge_rs.Common.Dict.{Dict}
use filling_pilot_edge_rs.Common.Eq.{String_eq}
use filling_pilot_edge_rs.Error.{Result, ok, err}
use filling_pilot_edge_rs.Json.{View, null, bool, number, string, array, object}
use filling_pilot_edge_rs.Deploy.Meta.{MetaDefinition, encode_content}
use filling_pilot_edge_rs.S7.Crate.{S7Crate}
use filling_pilot_edge_rs.S7.Pool.{S7Manager}
use filling_pilot_edge_rs.Deploy.Write.{
  DeployCrates, Deployment, resolve, write_encoding, encode_blocking, deploy_at, deploy, deploy_all,
  manager_of, deploy_parsed, deploy_all_parsed, call_back, try_call_back,
}

abbrev is_ok : {A E : Type 0} → Result A E → Bool
is_ok (ok a) = true
is_ok (err e) = false

-- A panic, or what is there without one.
abbrev pub none_or : {A : Type 0} → Bool → A → Option A
none_or true a = none
none_or false a = some a

abbrev listed : {A : Type 0} → Option A → List A
listed none = []
listed (some a) = a ∷ []

module _ (crates : DeployCrates) where
  open crates use {codec}
  open codec use {json}
  open json use {Value, Number, view}

  abbrev is_object : View Value Number → Bool
  is_object (object content) = true
  is_object other = false

  -- A deployment of an object whose address resolves, alone and among others.
  abbrev pub reaches_encoder :
      Dict String (String × ℕ) → Option String → Option ℕ → Deployment Value → Bool
  reaches_encoder stations ip port d =
      is_ok (resolve d.fill_station_id stations ip port) && is_object (view d.content)

  abbrev pub any_reaches :
      Dict String (String × ℕ) → Option String → Option ℕ → List (Deployment Value) → Bool
  any_reaches stations ip port [] = false
  any_reaches stations ip port (d ∷ ds) =
      reaches_encoder stations ip port d || any_reaches stations ip port ds

  module _ {s7 : S7Crate} (cache : Dict String MetaDefinition)
      (blocked : crates.can_block ≡ false) where
    deploy_at-blocked :
        (d : Deployment Value) (r : Result (String × ℕ) String) (v : View Value Number)
        (p : S7Manager s7)
        → view d.content ≡ v
        → manager_of crates (deploy_at crates d cache r p) ≡ none_or (is_ok r && is_object v) p
    unfolding deploy_at encode_blocking write_encoding encode_content
    deploy_at-blocked d (err e) v p h = refl
    deploy_at-blocked d (ok address) (object content) p h = rw (h, blocked) refl
    deploy_at-blocked d (ok address) null p h = rw h refl
    deploy_at-blocked d (ok address) (bool b) p h = rw h refl
    deploy_at-blocked d (ok address) (number b) p h = rw h refl
    deploy_at-blocked d (ok address) (string b) p h = rw h refl
    deploy_at-blocked d (ok address) (array b) p h = rw h refl

    module _ (stations : Dict String (String × ℕ)) (ip : Option String) (port : Option ℕ) where
      deploy-blocked :
          (d : Deployment Value) (p : S7Manager s7)
          → manager_of crates (deploy crates d cache stations ip port p)
            ≡ none_or (reaches_encoder stations ip port d) p
      unfolding deploy
      deploy-blocked d p =
          deploy_at-blocked d (resolve d.fill_station_id stations ip port) (view d.content) p refl

      deploy_all-blocked :
          (ds : List (Deployment Value)) (p : S7Manager s7)
          → deploy_all crates ds cache stations ip port p
            ≡ none_or (any_reaches stations ip port ds) p
      unfolding deploy_all
      deploy_all-blocked [] p = refl
      deploy_all-blocked (d ∷ ds) p = elim (Bool-cases (reaches_encoder stations ip port d)) [
        | inl reached ↦ rw (deploy-blocked d p, reached) refl
        | inr missed ↦ rw (deploy-blocked d p, missed) (deploy_all-blocked ds p)
      ]

  -- The deployments that a response asks for.
  abbrev pub requested_by : String → Option (Option String) → List (Deployment Value)
  requested_by text none = []
  requested_by text (some none) = []
  requested_by text (some (some callback)) =
      if str_eq callback "pilotService/deploy"
      then listed (crates.parse_deployment text)
      else if str_eq callback "pilotService/deployAll"
      then unwrap_or (crates.parse_deployments text) []
      else []

  abbrev pub requested : String → List (Deployment Value)
  requested response =
      if str_eq (crates.trim response) ""
      then []
      else requested_by (crates.trim response) (crates.parse_callback (crates.trim response))

  module _ {s7 : S7Crate} (cache : Dict String MetaDefinition) (blocked : crates.can_block ≡ false)
      (stations : Dict String (String × ℕ)) (ip : Option String) (port : Option ℕ)
      (p : S7Manager s7) where
    deploy_parsed-blocked :
        (o : Option (Deployment Value))
        → deploy_parsed crates o cache stations ip port p
          ≡ none_or (any_reaches stations ip port (listed o)) p
    unfolding deploy_parsed
    deploy_parsed-blocked none = refl
    deploy_parsed-blocked (some d) = elim (Bool-cases (reaches_encoder stations ip port d)) [
      | inl reached ↦ rw (deploy-blocked cache blocked stations ip port d p, reached) refl
      | inr missed ↦ rw (deploy-blocked cache blocked stations ip port d p, missed) refl
    ]

    deploy_all_parsed-blocked :
        (o : Option (List (Deployment Value)))
        → deploy_all_parsed crates o cache stations ip port p
          ≡ none_or (any_reaches stations ip port (unwrap_or o [])) p
    unfolding deploy_all_parsed
    deploy_all_parsed-blocked none = refl
    deploy_all_parsed-blocked (some ds) = deploy_all-blocked cache blocked stations ip port ds p

    call_back-blocked :
        (text : String) (o : Option (Option String))
        → call_back crates text o cache stations ip port p
          ≡ none_or (any_reaches stations ip port (requested_by text o)) p
    unfolding call_back
    call_back-blocked text none = refl
    call_back-blocked text (some none) = refl
    call_back-blocked text (some (some callback)) =
        elim (Bool-cases (str_eq callback "pilotService/deploy")) [
          | inl one ↦ rw one (deploy_parsed-blocked (crates.parse_deployment text))
          | inr other ↦ rw other (elim (Bool-cases (str_eq callback "pilotService/deployAll")) [
            | inl all ↦ rw all (deploy_all_parsed-blocked (crates.parse_deployments text))
            | inr unknown ↦ rw unknown refl
          ])
        ]

  -- On a thread that must not be blocked, the callback of a local service, whatever its response asks for,
  -- panics exactly if one of the deployments that it asks for, alone or in a list, is of an object and has
  -- an address that resolves; else it ends without a write to any PLC.
  pub try_call_back-blocked :
      {s7 : S7Crate} (response : String) (cache : Dict String MetaDefinition)
      (stations : Dict String (String × ℕ)) (ip : Option String) (port : Option ℕ)
      (p : S7Manager s7)
      → crates.can_block ≡ false
      → try_call_back crates response cache stations ip port p
        ≡ none_or (any_reaches stations ip port (requested response)) p
  unfolding try_call_back
  try_call_back-blocked response cache stations ip port p blocked =
      elim (Bool-cases (str_eq (crates.trim response) "")) [
        | inl empty ↦ rw empty refl
        | inr there ↦ rw there (
            call_back-blocked cache blocked stations ip port p (crates.trim response)
              (crates.parse_callback (crates.trim response)))
      ]
