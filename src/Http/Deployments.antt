-- ===== src/Http/Deployments.antt =====
-- What a deployment over HTTP stores.
use Prim.Native.String.{◌++◌ as ◌<>◌}
use native.Mathlib.Nat.{mul_comm}
use filling_pilot_edge_rs.Common.Text.{show_ℕ}
use filling_pilot_edge_rs.Common.{
  ℕ, suc, ◌≡◌, ◌^◌, ◌⊎◌, inl, inr, refl, subst, ◌%◌, String, true, false, Option, none, some, List,
  [], ◌∷◌, arith, usize, ◌+◌, ◌*◌, str_eq, if◌then◌else◌, unwrap_or,
}
use filling_pilot_edge_rs.Common.Dict
use filling_pilot_edge_rs.Common.Dict.{Dict}
use filling_pilot_edge_rs.Common.Eq.{String_eq}
use filling_pilot_edge_rs.Codec.Property.{
  PropertyType, DataBlockProperty, DataBlockDefinition, from_lowercase, type_size, size_of,
  sum_sizes, calculate_size,
}
use filling_pilot_edge_rs.Error.{Error, Result, ok, err, then_ok}
use filling_pilot_edge_rs.Http.{
  DeploymentResponse, ok_or, parse_property, parse_properties, parse_deployment, deploy_handler,
  deployed,
}
use filling_pilot_edge_rs.Json.{Json}
use filling_pilot_edge_rs.Json.Members.{str_at, u64_at, array_at}

module _ (json : Json) (to_lowercase : String → String) where
  open json use {Value}

  -- The type, the number of values, and the property that an item of a request asks for.
  abbrev asked_type : Value → PropertyType
  asked_type item = from_lowercase (to_lowercase (unwrap_or (str_at json "type" item) "byte"))

  abbrev asked_count : Value → ℕ
  asked_count item = unwrap_or (u64_at json "count" item) 1

  abbrev pub IsAsked : Value → DataBlockProperty → Type 0
  IsAsked item p =
      (str_at json "name" item ≡ some p.name)
      × (p.property_type ≡ asked_type item)
      × (p.offset ≡ unwrap_or (u64_at json "offset" item) 0)
      × (p.count ≡ asked_count item)
      × (p.byte_size ≡ none)

  -- The properties are those of the items, in order.
  abbrev pub AreAsked : List Value → List DataBlockProperty → Type 0
  AreAsked [] [] = Unit
  AreAsked (item ∷ items) (p ∷ ps) = IsAsked item p × AreAsked items ps
  AreAsked _ _ = ⊥

  -- The bytes of all values that the items ask for.
  abbrev pub bytes_asked : List Value → ℕ
  bytes_asked [] = 0
  bytes_asked (item ∷ items) = asked_count item * type_size (asked_type item) + bytes_asked items

  ok_or-some :
      {A : Type 0} (message : String) (o : Option A) (a : A) → ok_or message o ≡ ok a → o ≡ some a
  ok_or-some message none a h = absurd (cc)
  ok_or-some message (some b) a h = ground (arith, h)

  parse_property-IsAsked :
      (i : ℕ) (item : Value) (p : DataBlockProperty)
      → parse_property json to_lowercase i item ≡ ok p
      → IsAsked item p
  unfolding parse_property
  parse_property-IsAsked i item p h =
      let (name, named, h1) =
        then_ok (ok_or ("Missing name at index " <> show_ℕ i) (str_at json "name" item)) _ _ h in
      let result : DataBlockProperty = record {
        name = name;
        property_type = asked_type item;
        offset = unwrap_or (u64_at json "offset" item) 0;
        count = asked_count item;
        byte_size = none;
      } in
      let same : result ≡ p = ground (arith, h1) in
      subst (IsAsked item) same (
        ok_or-some ("Missing name at index " <> show_ℕ i) (str_at json "name" item) name named,
        refl,
        refl,
        refl,
        refl,
      )

  parse_properties-AreAsked :
      (i : ℕ) (items : List Value) (properties : List DataBlockProperty)
      → parse_properties json to_lowercase i items ≡ ok properties
      → AreAsked items properties
  unfolding parse_properties
  parse_properties-AreAsked i [] properties h =
      let same : [] ≡ properties = ground (arith, h) in subst (AreAsked []) same tt
  parse_properties-AreAsked i (item ∷ items) properties h =
      let (p, first, h1) = then_ok (parse_property json to_lowercase i item) _ _ h in
      let (rest, others, h2) = then_ok (parse_properties json to_lowercase (suc i) items) _ _ h1 in
      let same : (p ∷ rest) ≡ properties = ground (arith, h2) in
      subst (AreAsked (item ∷ items)) same
        (parse_property-IsAsked i item p first, parse_properties-AreAsked (suc i) items rest others)

  sum_sizes-asked :
      (items : List Value) (ps : List DataBlockProperty)
      → AreAsked items ps
      → sum_sizes ps ≡ usize (bytes_asked items)
  unfolding sum_sizes size_of
  sum_sizes-asked [] [] h = refl
  sum_sizes-asked [] (p ∷ ps) h = absurd h
  sum_sizes-asked (item ∷ items) [] h = absurd h
  sum_sizes-asked (item ∷ items) (p ∷ ps) h =
      let (name, type, offset, count, size) = h.0 in
      let rest = sum_sizes-asked items ps h.1 in
      let order = mul_comm (asked_count item) (type_size (asked_type item)) in
      rw (size, type, count) (omega (arith, rest, order))

  -- A parsed deployment has the number of the request, in 16 bits, its name and address, the properties
  -- that its items ask for, and the bytes of all their values as its size, as a usize.
  abbrev pub Describes : Value → DataBlockDefinition → Type 0
  Describes deployment def =
      (n : ℕ) × (u64_at json "dbNumber" deployment ≡ some n)
      × (def.db_number ≡ n % 2 ^ 16)
      × (def.plc_ip ≡ str_at json "plcIp" deployment)
      × (str_at json "name" deployment ≡ some def.name)
      × AreAsked (unwrap_or (array_at json "properties" deployment) []) def.properties
      × (def.total_size
          ≡ usize (bytes_asked (unwrap_or (array_at json "properties" deployment) [])))

  parse_deployment-Describes :
      (deployment : Value) (def : DataBlockDefinition)
      → parse_deployment json to_lowercase deployment ≡ ok def
      → Describes deployment def
  unfolding parse_deployment calculate_size
  parse_deployment-Describes deployment def h =
      let (n, number, h1) =
        then_ok (ok_or "Missing dbNumber" (u64_at json "dbNumber" deployment)) _ _ h in
      let (name, named, h2) =
        then_ok (ok_or "Missing name" (str_at json "name" deployment)) _ _ h1 in
      let (properties, parsed, h3) =
        then_ok
          (parse_properties json to_lowercase 0
            (unwrap_or (array_at json "properties" deployment) []))
          _ _ h2 in
      let items = unwrap_or (array_at json "properties" deployment) [] in
      let asked = parse_properties-AreAsked 0 items properties parsed in
      let result = calculate_size (record {
        db_number = n % 65536;
        name = name;
        plc_ip = str_at json "plcIp" deployment;
        properties = properties;
        total_size = 0;
      }) in
      let same : result ≡ def = ground (arith, h3) in
      subst (Describes deployment) same (
        n,
        ok_or-some "Missing dbNumber" (u64_at json "dbNumber" deployment) n number,
        refl,
        refl,
        ok_or-some "Missing name" (str_at json "name" deployment) name named,
        asked,
        sum_sizes-asked items properties asked,
      )

  -- What a deployment leaves: one that is reported as a success is stored under its name, next to those
  -- of other names; one that is not leaves all as they were, and tells the error.
  abbrev pub Stores :
      (Error → String)
      → Value
      → Dict String DataBlockDefinition
      → DeploymentResponse × Dict String DataBlockDefinition
      → Type 0
  Stores error_text deployment before (answer, after) =
      ((answer.success ≡ true)
        × (def : DataBlockDefinition) × Describes deployment def
        × ((name : String)
            → Dict.get name after
              ≡ (if str_eq name def.name then some def else Dict.get name before)))
      ⊎ ((answer.success ≡ false)
          × (after ≡ before)
          × (e : Error) × (parse_deployment json to_lowercase deployment ≡ err e)
          × (answer.message ≡ some (error_text e)))

  deployed-Stores :
      (error_text : Error → String) (deployment : Value) (before : Dict String DataBlockDefinition)
      (r : Result DataBlockDefinition Error)
      → parse_deployment json to_lowercase deployment ≡ r
      → Stores error_text deployment before (deployed error_text r before)
  deployed-Stores error_text deployment before (ok def) h = inl (
    refl,
    def,
    parse_deployment-Describes deployment def h,
    λ name. Dict.get-insert name def.name def before,
  )
  deployed-Stores error_text deployment before (err e) h = inr (refl, refl, e, h, refl)

  -- A deployment that is reported as a success is stored under the name of the request, with its
  -- number in 16 bits, its address, exactly the properties that its items ask for, and the bytes of all
  -- their values, as a usize, next to those of other names; one that is not leaves all as they were, and
  -- tells the error.
  pub deploy_handler-Stores :
      (error_text : Error → String) (deployment : Value) (before : Dict String DataBlockDefinition)
      → Stores error_text deployment before
          (deploy_handler json to_lowercase error_text deployment before)
  unfolding deploy_handler
  deploy_handler-Stores error_text deployment before =
      deployed-Stores error_text deployment before _ refl
