-- ===== src/Context/Load.antt =====
-- When the configuration is loaded, and to what.
use Prim.Native.String.{◌++◌ as ◌<>◌}
use filling_pilot_edge_rs.Common.{
  ◌≡◌, ◌↔◌, refl, String, false, arith, str_eq, unwrap_or, ap, sym, ◌∙◌, subst,
}
use filling_pilot_edge_rs.Error.{Result, ok, err, ◌>>=◌, then_ok}
use filling_pilot_edge_rs.Context.{
  Context, ContextCrates, ServerConf, merge_server_conf, load, load_id, load_conf, load_with_paths,
  with_id, map_err,
}

-- The two files have the contents of a node with an id and of a server.
pub record IsConfiguredBy (crates : ContextCrates) (node : Context) (conf : ServerConf)
    : Type 0 where
  pub id_content : String
  pub id_file : crates.read_to_string "id.key" ≡ ok id_content
  pub id_value : crates.Value
  pub id_json : crates.parse_value id_content ≡ ok id_value
  pub id_fields : crates.context_of id_value ≡ ok node
  pub has_id : str_eq node.id "" ≡ false
  pub conf_content : String
  pub conf_file : crates.read_to_string "server.conf" ≡ ok conf_content
  pub conf_json : crates.parse_server_conf conf_content ≡ ok conf

-- The node of the id file, with the address, the port and the intervals of the server's file.
abbrev pub Merges : Context → ServerConf → Context → Type 0
Merges node conf c =
    (c.id ≡ node.id)
    × (c.private_key ≡ node.private_key)
    × (c.version ≡ node.version)
    × (c.upgrade_url ≡ node.upgrade_url)
    × (c.server_conf_url ≡ node.server_conf_url)
    × (c.server_address ≡ conf.server_address)
    × (c.port ≡ conf.port)
    × (c.heart_beat ≡ conf.heart_beat)
    × (c.report_interval ≡ conf.report_interval)
    × (c.status_interval ≡ conf.status_interval)
    × (c.local_port ≡ conf.local_port)

merge-Merges : (node : Context) (conf : ServerConf) → Merges node conf (merge_server_conf conf node)
unfolding merge_server_conf
merge-Merges node conf = (refl, refl, refl, refl, refl, refl, refl, refl, refl, refl, refl)

Merges-unique :
    (node : Context) (conf : ServerConf) (c : Context)
    → Merges node conf c
    → c ≡ merge_server_conf conf node
unfolding merge_server_conf
Merges-unique node conf c
      (id, key, version, upgrade, conf_url, address, port, beat, report, status, local) =
    λ i. record {
      server_address = address i;
      port = port i;
      upgrade_url = upgrade i;
      server_conf_url = conf_url i;
      version = version i;
      id = id i;
      private_key = key i;
      heart_beat = beat i;
      report_interval = report i;
      status_interval = status i;
      local_port = local i;
    }

module _ {A B E F : Type 0} where
  bind_ok :
      (f : E → F) (r : Result A E) (g : A → Result B F) (b : B)
      → (map_err f r >>= g) ≡ ok b
      → (a : A) × (r ≡ ok a) × (g a ≡ ok b)
  bind_ok f (ok a) g b h = (a, refl, h)
  bind_ok f (err e) g b h = absurd (cc)

with_id_ok :
    (id_path cwd : String) (ctx valid : Context)
    → with_id id_path cwd ctx ≡ ok valid
    → (ctx ≡ valid) × (str_eq ctx.id "" ≡ false)
with_id_ok id_path cwd ctx valid h = ground arith

module _ (crates : ContextCrates) (path cwd : String) where
  load_id_ok :
      (node : Context) (content : String)
      → load_id crates path cwd ≡ ok (node, content)
      → (value : crates.Value) × (crates.read_to_string "id.key" ≡ ok content)
        × (crates.parse_value content ≡ ok value)
        × (crates.context_of value ≡ ok node)
        × (str_eq node.id "" ≡ false)
  unfolding load_id
  load_id_ok node content h =
      let (text, file, h1) = bind_ok _ (crates.read_to_string "id.key") _ _ h in
      let (value, json, h2) = bind_ok _ (crates.parse_value text) _ _ h1 in
      let (ctx, fields, h3) = bind_ok _ (crates.context_of value) _ _ h2 in
      let (valid, checked, h4) = then_ok (with_id path cwd ctx) _ _ h3 in
      let (same, named) = with_id_ok path cwd ctx valid checked in
      let is_node : ctx ≡ node = ground (arith, h4, same) in
      let is_content : text ≡ content = ground (arith, h4) in
      (
        value,
        file ∙ ap ok is_content,
        ap crates.parse_value (sym is_content) ∙ json,
        fields ∙ ap ok is_node,
        ap (λ x. str_eq x.id "") (sym is_node) ∙ named,
      )

  load_conf_ok :
      (conf : ServerConf) (content : String)
      → load_conf crates path cwd ≡ ok (conf, content)
      → (crates.read_to_string "server.conf" ≡ ok content)
        × (crates.parse_server_conf content ≡ ok conf)
  unfolding load_conf
  load_conf_ok conf content h =
      let (text, file, h1) = bind_ok _ (crates.read_to_string "server.conf") _ _ h in
      let (parsed, json, h2) = bind_ok _ (crates.parse_server_conf text) _ _ h1 in
      let is_content : text ≡ content = ground (arith, h2) in
      let is_conf : parsed ≡ conf = ground (arith, h2) in
      (file ∙ ap ok is_content, ap crates.parse_server_conf (sym is_content) ∙ json ∙ ap ok is_conf)

module _ (crates : ContextCrates) where
  -- The configuration is loaded exactly when `id.key` is read and parsed to a node with a non-empty id,
  -- and `server.conf` is read and parsed; it is the node's with the address, port and intervals of the
  -- server's file.
  pub load_iff :
      (c : Context)
      → (load crates ≡ ok c) ↔ (
          (node : Context) × (conf : ServerConf) × IsConfiguredBy crates node conf
          × Merges node conf c)
  unfolding load load_with_paths load_id load_conf
  load_iff c = (
    λ h.
        let (loaded, h1, h2) = then_ok (load_with_paths crates) _ _ h in
        let cwd = unwrap_or crates.current_dir "<unknown>" in
        let (identity, h3, h4) = then_ok (load_id crates (cwd <> "/id") cwd) _ _ h1 in
        let (conf, h5, h6) = then_ok (load_conf crates (cwd <> "/serverConf") cwd) _ _ h4 in
        let (value, id_file, id_json, id_fields, has_id) =
          load_id_ok crates _ _ identity.0 identity.1 h3 in
        let (conf_file, conf_json) = load_conf_ok crates _ _ conf.0 conf.1 h5 in
        (
          identity.0,
          conf.0,
          record {
            id_content = identity.1;
            id_file = id_file;
            id_value = value;
            id_json = id_json;
            id_fields = id_fields;
            has_id = has_id;
            conf_content = conf.1;
            conf_file = conf_file;
            conf_json = conf_json;
          },
          let same : merge_server_conf conf.0 identity.0 ≡ c = ground (arith, h2, h6) in
              subst (Merges identity.0 conf.0) same (merge-Merges identity.0 conf.0),
        ),
    λ (node, conf, k, e).
        rw
          (
            k.id_file,
            k.id_json,
            k.id_fields,
            k.has_id,
            k.conf_file,
            k.conf_json,
            Merges-unique node conf c e,
          )
          refl,
  )
