-- ===== src/Http/Server/Confined.antt =====
-- What the requests of a client can change (src/http.rs).
use filling_pilot_edge_rs.Common.{
  ℕ, ◌≡◌, refl, ap, ◌∙◌, ◌%◌, String, Bool, true, false, Option, some, List, [], ◌∷◌, str_eq,
  if◌then◌else◌, unwrap_or,
}
use filling_pilot_edge_rs.Common.Dict
use filling_pilot_edge_rs.Common.Dict.{Dict}
use filling_pilot_edge_rs.Common.Eq.{String_eq}
use filling_pilot_edge_rs.Codec.Property.{DataBlockDefinition}
use filling_pilot_edge_rs.Error.{Error, Result, ok, err}
use filling_pilot_edge_rs.Http.{
  deployed, parse_deployment, deploy_handler, read_handler, write_decoded, write_handler,
}
use filling_pilot_edge_rs.Http.Server.{
  AppState, get, Handler, index, deploy, status, read, write, health, config, log, version, route,
  handle, serve,
}
use filling_pilot_edge_rs.Json.{Json}
use filling_pilot_edge_rs.Json.Members.{str_at, u64_at}
use filling_pilot_edge_rs.Processor.{HexCrate}
use filling_pilot_edge_rs.S7.Crate.{S7Crate}
use filling_pilot_edge_rs.S7.Pool.{S7Manager, key_of}
use filling_pilot_edge_rs.S7.Pool.Isolation.{OnlyChanges, operations-OnlyChange}

-- The definition of a name that a parsed body leaves, before which there was `old`.
abbrev pub accepted :
    String
    → Result DataBlockDefinition Error
    → Option DataBlockDefinition
    → Option DataBlockDefinition
accepted name (ok def) old = if str_eq name def.name then some def else old
accepted name (err e) old = old

deployed-accepted :
    (error_text : Error → String) (r : Result DataBlockDefinition Error) (name : String)
    (ds : Dict String DataBlockDefinition)
    → Dict.get name (deployed error_text r ds).1 ≡ accepted name r (Dict.get name ds)
deployed-accepted error_text (ok def) name ds = Dict.get-insert name def.name def ds
deployed-accepted error_text (err e) name ds = refl

elsewhere : (b rest : Bool) → (if b then false else rest) ≡ true → (b ≡ false) × (rest ≡ true)
elsewhere true rest h = absurd (cc)
elsewhere false rest h = (refl, h)

module _ (json : Json) where
  open json use {Value}

  -- The PLC that the body of a read or a write names.
  abbrev pub target : Value → String
  target body =
      key_of (unwrap_or (str_at json "ip" body) "127.0.0.1")
        (unwrap_or (u64_at json "port" body) 102 % 65536)

  -- Whether a request is a read or a write of a PLC.
  abbrev pub reaches : String → Handler × Value → Bool
  reaches key (read, body) = str_eq key (target body)
  reaches key (write, body) = str_eq key (target body)
  reaches key _ = false

  abbrev pub reached_by_none : String → List (Handler × Value) → Bool
  reached_by_none key [] = true
  reached_by_none key (request ∷ requests) =
      if reaches key request then false else reached_by_none key requests

module _ (json : Json) (to_lowercase : String → String) where
  open json use {Value}

  -- The definition that the last valid deployment of a name among the requests has, or `old`.
  abbrev pub last_deployed :
      String → List (Handler × Value) → Option DataBlockDefinition → Option DataBlockDefinition
  last_deployed name [] old = old
  last_deployed name ((deploy, body) ∷ requests) old =
      last_deployed name requests (accepted name (parse_deployment json to_lowercase body) old)
  last_deployed name (_ ∷ requests) old = last_deployed name requests old

module _ (json : Json) (hex : HexCrate) (to_lowercase : String → String) {s7 : S7Crate} where
  open json use {Value}

  -- A handler that is registered for GET leaves the state as it was.
  get_is_safe :
      (logs : List String) (handler : Handler) (body : Value) (s : AppState s7)
      → (route handler).0 ≡ get
      → (handle json hex to_lowercase logs handler body s).1 ≡ s
  unfolding route handle
  get_is_safe logs index body s h = refl
  get_is_safe logs deploy body s h = absurd (cc)
  get_is_safe logs status body s h = refl
  get_is_safe logs read body s h = absurd (cc)
  get_is_safe logs write body s h = absurd (cc)
  get_is_safe logs health body s h = refl
  get_is_safe logs config body s h = refl
  get_is_safe logs log body s h = refl
  get_is_safe logs version body s h = refl

  -- What a call leaves of the pool: the list of PLCs, and the connections but one.
  read_handler-OnlyChanges :
      (body : Value) (p : S7Manager s7)
      → OnlyChanges (target json body) p (read_handler json hex body p).1
  unfolding read_handler
  read_handler-OnlyChanges body p =
      (operations-OnlyChange (unwrap_or (str_at json "ip" body) "127.0.0.1")
        (unwrap_or (u64_at json "port" body) 102 % 65536)
        (unwrap_or (u64_at json "db" body) 1 % 65536)
        (unwrap_or (u64_at json "offset" body) 0 % 65536)
        (unwrap_or (u64_at json "size" body) 10 % 65536) [] p).0

  write_decoded-OnlyChanges :
      (body : Value) (r : Result (List ℕ) String) (p : S7Manager s7)
      → OnlyChanges (target json body) p (write_decoded json hex body r p).1
  unfolding write_decoded
  write_decoded-OnlyChanges body (err e) p = (λ k n. refl, refl)
  write_decoded-OnlyChanges body (ok bytes) p =
      (operations-OnlyChange (unwrap_or (str_at json "ip" body) "127.0.0.1")
        (unwrap_or (u64_at json "port" body) 102 % 65536)
        (unwrap_or (u64_at json "db" body) 1 % 65536)
        (unwrap_or (u64_at json "offset" body) 0 % 65536) 0 bytes p).1

  -- What requests leave of the state that the handlers share: its configuration, the list of PLCs, the
  -- connections of the PLCs that no read and no write names, and for each name the last valid
  -- deployment.
  abbrev pub Confined : List (Handler × Value) → AppState s7 → AppState s7 → Type 0
  Confined requests s s' =
      (s'.context ≡ s.context)
      × (s'.s7_manager.plc_list ≡ s.s7_manager.plc_list)
      × ((key : String)
          → reached_by_none json key requests ≡ true
          → Dict.get key s'.s7_manager.connections ≡ Dict.get key s.s7_manager.connections)
      × ((name : String)
          → Dict.get name s'.deployments
            ≡ last_deployed json to_lowercase name requests (Dict.get name s.deployments))

  -- The connections after a call on one PLC and the requests that follow it.
  after_call :
      (key plc : String) (requests : List (Handler × Value)) (before between after : S7Manager s7)
      → OnlyChanges plc before between
      → (reached_by_none json key requests ≡ true
          → Dict.get key after.connections ≡ Dict.get key between.connections)
      → (if str_eq key plc then false else reached_by_none json key requests) ≡ true
      → Dict.get key after.connections ≡ Dict.get key before.connections
  after_call key plc requests before between after change later h =
      let (other, none_later) = elsewhere (str_eq key plc) (reached_by_none json key requests) h in
      later none_later ∙ change.0 key other

  -- Requests to the HTTP interface, whatever they are and in whatever order, leave the configuration and
  -- the list of PLCs of the node as they were; they touch the connection of a PLC only if one of them is
  -- a read or a write of that PLC; and the deployment that is kept under a name is the one of the last
  -- request that deployed a valid definition of that name, and without such a request the one from before.
  pub serve-Confined :
      (logs : List String) (requests : List (Handler × Value)) (s : AppState s7)
      → Confined requests s (serve json hex to_lowercase logs requests s)
  unfolding serve handle deploy_handler write_handler
  serve-Confined logs [] s = (refl, refl, λ key h. refl, λ name. refl)
  serve-Confined logs ((index, body) ∷ requests) s = serve-Confined logs requests s
  serve-Confined logs ((status, body) ∷ requests) s = serve-Confined logs requests s
  serve-Confined logs ((health, body) ∷ requests) s = serve-Confined logs requests s
  serve-Confined logs ((config, body) ∷ requests) s = serve-Confined logs requests s
  serve-Confined logs ((log, body) ∷ requests) s = serve-Confined logs requests s
  serve-Confined logs ((version, body) ∷ requests) s = serve-Confined logs requests s
  serve-Confined logs ((deploy, body) ∷ requests) s =
      let (a, b, c, d) =
        serve-Confined logs requests (handle json hex to_lowercase logs deploy body s).1 in
      (
        a,
        b,
        c,
        λ name.
            d name
            ∙ ap (last_deployed json to_lowercase name requests) (
                deployed-accepted hex.error_text (parse_deployment json to_lowercase body) name
                  s.deployments),
      )
  serve-Confined logs ((read, body) ∷ requests) s =
      let next = (handle json hex to_lowercase logs read body s).1 in
      let change : OnlyChanges (target json body) s.s7_manager next.s7_manager =
        read_handler-OnlyChanges body s.s7_manager in
      let (a, b, c, d) = serve-Confined logs requests next in
      (
        a,
        b ∙ change.1,
        λ key h.
            after_call key (target json body) requests s.s7_manager next.s7_manager
              (serve json hex to_lowercase logs requests next).s7_manager change (c key) h,
        d,
      )
  serve-Confined logs ((write, body) ∷ requests) s =
      let next = (handle json hex to_lowercase logs write body s).1 in
      let change : OnlyChanges (target json body) s.s7_manager next.s7_manager =
        write_decoded-OnlyChanges body (hex.decode (unwrap_or (str_at json "hex" body) ""))
          s.s7_manager in
      let (a, b, c, d) = serve-Confined logs requests next in
      (
        a,
        b ∙ change.1,
        λ key h.
            after_call key (target json body) requests s.s7_manager next.s7_manager
              (serve json hex to_lowercase logs requests next).s7_manager change (c key) h,
        d,
      )
