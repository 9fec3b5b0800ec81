-- ===== src/Context.antt =====
-- The configuration of the node (src/context.rs): the files `id.key` and `server.conf`.
pub mod Load
use Prim.Native.String.{◌++◌ as ◌<>◌}
use filling_pilot_edge_rs.Common.{
  ℕ, zero, suc, String, Option, none, some, str_eq, unwrap_or, if◌then◌else◌,
}
use filling_pilot_edge_rs.Error.{Result, ok, err, ◌>>=◌}

pub record ServerConf : Type 0 where
  pub server_address : String
  pub port : ℕ  -- u16
  pub heart_beat : ℕ  -- u64, in ms
  pub report_interval : ℕ  -- u64, in ms
  pub status_interval : ℕ  -- u64, in ms
  pub local_port : ℕ  -- u16

pub record Context : Type 0 where
  pub server_address : String
  pub port : ℕ
  pub upgrade_url : Option String
  pub server_conf_url : Option String
  pub version : String
  pub id : String
  pub private_key : Option String
  pub heart_beat : ℕ
  pub report_interval : ℕ
  pub status_interval : ℕ
  pub local_port : ℕ

-- `ServerConf::default`
abbrev pub default_server_conf : ServerConf
default_server_conf = record {
  server_address = "192.168.0.1";
  port = 9999;
  heart_beat = 5000;
  report_interval = 5000;
  status_interval = 1000;
  local_port = 22222;
}

-- `Context::default`
abbrev pub default_context : Context
default_context = record {
  server_address = "192.168.0.1";
  port = 9999;
  upgrade_url = none;
  server_conf_url = none;
  version = "1.0";
  id = "";
  private_key = none;
  heart_beat = 5000;
  report_interval = 5000;
  status_interval = 1000;
  local_port = 22222;
}

-- The text of the source error, the path, the working directory, and what the file starts with.
pub data ContextError : Type 0 where
  id_file_not_found : String → String → String → ContextError
  id_file_invalid_json : String → String → String → String → ContextError
  missing_field : String → String → String → ContextError
  server_conf_not_found : String → String → String → ContextError
  server_conf_file_invalid : String → String → String → String → ContextError

-- The files, and the parsers that serde derives.
pub record ContextCrates : Type 1 where
  pub Value : Type 0
  pub current_dir : Option String
  pub read_to_string : String → Result String String
  pub parse_value : String → Result Value String
  pub context_of : Value → Result Context String
  pub parse_server_conf : String → Result ServerConf String

-- What `load_with_paths` returns.
pub record Loaded : Type 0 where
  pub context : Context
  pub cwd : String
  pub id_path : String
  pub server_conf_path : String
  pub id_content : String
  pub server_conf_content : String

-- `text.chars().take(n).collect()`
unfoldable pub take_chars : ℕ → String → String
take_chars zero s = ""
take_chars (suc n) String.[] = ""
take_chars (suc n) (String.◌∷◌ c s) = String.◌∷◌ c (take_chars n s)

abbrev pub map_err {ℓ κ μ} :
    {A : Type ℓ} {E : Type κ} {F : Type μ} → (E → F) → Result A E → Result A F
map_err f (ok a) = ok a
map_err f (err e) = err (f e)

unfoldable pub merge_server_conf : ServerConf → Context → Context
merge_server_conf conf ctx = record ctx {
  server_address = conf.server_address;
  port = conf.port;
  heart_beat = conf.heart_beat;
  report_interval = conf.report_interval;
  status_interval = conf.status_interval;
  local_port = conf.local_port;
}

-- The validation of the id.
abbrev pub with_id : String → String → Context → Result Context ContextError
with_id id_path cwd ctx =
    if str_eq ctx.id "" then err (ContextError.missing_field "id.key" id_path cwd) else ok ctx

module _ (crates : ContextCrates) where
  -- The part that reads the id file.
  unfoldable pub load_id : String → String → Result (Context × String) ContextError
  unfolding take_chars
  load_id id_path cwd = do
    id_content ←
        map_err (λ source. ContextError.id_file_not_found source id_path cwd)
          (crates.read_to_string "id.key")
    json_value ←
        map_err
          (λ source.
            ContextError.id_file_invalid_json source id_path cwd (take_chars 200 id_content))
          (crates.parse_value id_content)
    ctx ←
        map_err (λ _. ContextError.missing_field "id.key" id_path cwd)
          (crates.context_of json_value)
    valid ← with_id id_path cwd ctx
    ok (valid, id_content)

  -- The part that reads the configuration of the server.
  unfoldable pub load_conf : String → String → Result (ServerConf × String) ContextError
  unfolding take_chars
  load_conf conf_path cwd = do
    content ←
        map_err (λ source. ContextError.server_conf_not_found source conf_path cwd)
          (crates.read_to_string "server.conf")
    conf ←
        map_err
          (λ source.
            ContextError.server_conf_file_invalid source conf_path cwd (take_chars 200 content))
          (crates.parse_server_conf content)
    ok (conf, content)

  unfoldable pub load_with_paths : Result Loaded ContextError
  unfolding load_id load_conf merge_server_conf
  load_with_paths =
      let cwd = unwrap_or crates.current_dir "<unknown>" in
      let id_path = cwd <> "/id" in
      let conf_path = cwd <> "/serverConf" in
      do
        identity ← load_id id_path cwd
        conf ← load_conf conf_path cwd
        ok (record {
          context = merge_server_conf conf.0 identity.0;
          cwd = cwd;
          id_path = id_path;
          server_conf_path = conf_path;
          id_content = identity.1;
          server_conf_content = conf.1;
        })

  unfoldable pub load : Result Context ContextError
  unfolding load_with_paths
  load = do loaded ← load_with_paths; ok loaded.context
