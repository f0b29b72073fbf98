-- ===== src/Config.antt =====
-- The settings of the server (src/broker.h, src/broker.c) and the configuration file
-- (src/config.c).
pub mod Load
pub mod Outcome
use mini_pubsub_broker.Base.{
  ℕ, zero, suc, ◌≡◌, Bool, true, false, Option, none, some, List, [], ◌∷◌, ◌++◌, Bytes, ℤ, pos,
  codes,
}
use mini_pubsub_broker.Libc.{c_string}
use mini_pubsub_broker.Client.{Run, ok, fault, ◌>>=◌}

-- The fields of `broker` that are settings.
pub record Settings : Type 0 where
  pub cfg_path : Bytes
  pub pid_file : Bytes
  pub log_level : Bytes
  pub log_file : Bytes
  pub pub_ip : Bytes
  pub sub_ip : Bytes
  pub pub_port : ℤ
  pub sub_port : ℤ
  pub pub_backlog : ℕ
  pub sub_backlog : ℕ

-- The defaults of src/constant.h, as `server_config_init` takes them over.
abbrev pub default_settings : Settings
default_settings = record {
  cfg_path = codes "./broker.conf";
  pid_file = codes "./broker.pid";
  log_level = codes "DEBUG";
  log_file = codes "./broker.log";
  pub_ip = codes "0.0.0.0";
  sub_ip = codes "0.0.0.0";
  pub_port = pos 5561;
  sub_port = pos 5562;
  pub_backlog = 511;
  sub_backlog = 511;
}

-- `CONFIG_OK` and `CONFIG_ERR`.
pub data ConfigStatus : Type 0 where
  config_ok config_err : ConfigStatus

-- The calls of cJSON. An item has a text, NULL where the value is no string, and a number, 0 where
-- it is none.
pub record Json : Type 1 where
  pub Object : Type 0
  pub Item : Type 0
  pub parse : Bytes → Option Object
  pub get_object_item : Object → Bytes → Option Item
  pub valuestring : Item → Option Bytes
  pub valueint : Item → ℤ

-- `strdup`, which reads the bytes at its argument. Its behaviour on NULL is not defined, a fault here.
abbrev pub strdup : Option Bytes → Run Bytes
strdup none = fault
strdup (some s) = ok s

-- The `fgets` loop: each chunk is appended up to its NUL.
unfoldable pub read_config : List Bytes → Bytes
read_config [] = []
read_config (buf ∷ bufs) = c_string buf ++ read_config bufs

module _ (json : Json) where
  -- An item that may be missing, for a text or a number of the settings.
  abbrev pub set_text : Option json.Item → (Bytes → Settings) → Settings → Run Settings
  set_text none set cfg = ok cfg
  set_text (some i) set cfg = strdup (json.valuestring i) >>= λ s. ok (set s)

  abbrev pub set_number : Option json.Item → (ℤ → Settings) → Settings → Run Settings
  set_number none set cfg = ok cfg
  set_number (some i) set cfg = ok (set (json.valueint i))

  unfoldable pub update_config : json.Object → Settings → Run Settings
  update_config obj c0 = do
    let item = json.get_object_item obj
    c1 ← set_text (item (codes "pub_ip")) (λ s. record c0 { pub_ip = s }) c0
    c2 ← set_text (item (codes "sub_ip")) (λ s. record c1 { sub_ip = s }) c1
    c3 ← set_number (item (codes "pub_port")) (λ n. record c2 { pub_port = n }) c2
    c4 ← set_number (item (codes "sub_port")) (λ n. record c3 { sub_port = n }) c3
    c5 ← set_text (item (codes "log_file")) (λ s. record c4 { log_file = s }) c4
    set_text (item (codes "pid_file")) (λ s. record c5 { pid_file = s }) c5

  unfoldable pub load_parsed : Option json.Object → Settings → Run (ConfigStatus × Settings)
  unfolding update_config
  load_parsed none cfg = ok (config_err, cfg)
  load_parsed (some obj) cfg = update_config obj cfg >>= λ cfg'. ok (config_ok, cfg')

  -- The chunks of the file at the path, if it can be opened; a missing file is no error.
  unfoldable pub load_file : Option (List Bytes) → Settings → Run (ConfigStatus × Settings)
  unfolding load_parsed read_config
  load_file none cfg = ok (config_ok, cfg)
  load_file (some bufs) cfg = load_parsed (json.parse (read_config bufs)) cfg

  unfoldable pub srv_load_cfg :
      (Bytes → Option (List Bytes)) → Option Bytes → Settings → Run (ConfigStatus × Settings)
  unfolding load_file
  srv_load_cfg fopen none cfg = ok (config_ok, cfg)
  srv_load_cfg fopen (some cfg_path) cfg = load_file (fopen cfg_path) cfg
