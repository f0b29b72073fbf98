-- ===== src/Config/Load.antt =====
-- What `srv_load_cfg` takes over from a configuration file.
use mini_pubsub_broker.Base.{◌≡◌, refl, ap, ◌∙◌, sym, Option, none, some, List, Bytes, ℤ, codes}
use mini_pubsub_broker.Client.{ok, ◌>>=◌}
use mini_pubsub_broker.Config.{
  Settings, config_ok, Json, read_config, set_text, set_number, update_config, load_parsed,
  load_file, srv_load_cfg,
}

abbrev pub some_or : Option Bytes → Bytes → Bytes
some_or none old = old
some_or (some s) old = s

module _ (json : Json) where
  -- The item holds a text, if there is one.
  abbrev pub HasText : Option json.Item → Type 0
  HasText none = Unit {0}
  HasText (some i) = (s : Bytes) × (json.valuestring i ≡ some s)

  -- The text of an item that is there, and else another one.
  abbrev pub text_or : Option json.Item → Bytes → Bytes
  text_or none old = old
  text_or (some i) old = some_or (json.valuestring i) old

  abbrev pub number_or : Option json.Item → ℤ → ℤ
  number_or none old = old
  number_or (some i) old = json.valueint i

  pub set_text-ok :
      (o : Option json.Item) (set : Bytes → Settings) (old : Bytes) (cfg : Settings)
      → HasText o
      → set old ≡ cfg
      → set_text json o set cfg ≡ ok (set (text_or o old))
  set_text-ok none set old cfg has e = ap ok (sym e)
  set_text-ok (some i) set old cfg (s, e') e = rw e'

  pub set_number-ok :
      (o : Option json.Item) (set : ℤ → Settings) (old : ℤ) (cfg : Settings)
      → set old ≡ cfg
      → set_number json o set cfg ≡ ok (set (number_or o old))
  set_number-ok none set old cfg e = ap ok (sym e)
  set_number-ok (some i) set old cfg e = refl

  -- The six settings that a configuration can change, and no other.
  abbrev pub configured : json.Object → Settings → Settings
  configured obj cfg =
      let item = json.get_object_item obj in
      record cfg {
        pub_ip = text_or (item (codes "pub_ip")) cfg.pub_ip;
        sub_ip = text_or (item (codes "sub_ip")) cfg.sub_ip;
        pub_port = number_or (item (codes "pub_port")) cfg.pub_port;
        sub_port = number_or (item (codes "sub_port")) cfg.sub_port;
        log_file = text_or (item (codes "log_file")) cfg.log_file;
        pid_file = text_or (item (codes "pid_file")) cfg.pid_file;
      }

  -- The items for texts hold texts.
  pub record IsTyped (obj : json.Object) : Type 0 where
    pub pub_ip : HasText (json.get_object_item obj (codes "pub_ip"))
    pub sub_ip : HasText (json.get_object_item obj (codes "sub_ip"))
    pub log_file : HasText (json.get_object_item obj (codes "log_file"))
    pub pid_file : HasText (json.get_object_item obj (codes "pid_file"))

  pub update_config-configured :
      (obj : json.Object) (c0 : Settings)
      → IsTyped obj
      → update_config json obj c0 ≡ ok (configured obj c0)
  unfolding update_config
  update_config-configured obj c0 typed =
      let item = json.get_object_item obj in
      let c1 : Settings = record c0 { pub_ip = text_or (item (codes "pub_ip")) c0.pub_ip } in
      let c2 : Settings = record c1 { sub_ip = text_or (item (codes "sub_ip")) c1.sub_ip } in
      let c3 : Settings = record c2 {
        pub_port = number_or (item (codes "pub_port")) c2.pub_port;
      } in
      let c4 : Settings = record c3 {
        sub_port = number_or (item (codes "sub_port")) c3.sub_port;
      } in
      let c5 : Settings = record c4 { log_file = text_or (item (codes "log_file")) c4.log_file } in
      rw (
        set_text-ok (item (codes "pub_ip")) (λ s. record c0 { pub_ip = s }) c0.pub_ip c0
            typed.pub_ip refl,
        set_text-ok (item (codes "sub_ip")) (λ s. record c1 { sub_ip = s }) c1.sub_ip c1
            typed.sub_ip refl,
        set_number-ok (item (codes "pub_port")) (λ n. record c2 { pub_port = n }) c2.pub_port c2
            refl,
        set_number-ok (item (codes "sub_port")) (λ n. record c3 { sub_port = n }) c3.sub_port c3
            refl,
        set_text-ok (item (codes "log_file")) (λ s. record c4 { log_file = s }) c4.log_file c4
            typed.log_file refl,
        set_text-ok (item (codes "pid_file")) (λ s. record c5 { pid_file = s }) c5.pid_file c5
            typed.pid_file refl,
      )

  -- A configuration file that can be read and parsed, and whose items for texts hold texts,
  -- changes exactly the settings that it names, among the two addresses, the two ports, the log
  -- file and the pid file.
  pub srv_load_cfg-configured :
      (fopen : Bytes → Option (List Bytes)) (cfg_path : Bytes) (bufs : List Bytes)
      (obj : json.Object) (cfg : Settings)
      → fopen cfg_path ≡ some bufs
      → json.parse (read_config bufs) ≡ some obj
      → IsTyped obj
      → srv_load_cfg json fopen (some cfg_path) cfg ≡ ok (config_ok, configured obj cfg)
  unfolding srv_load_cfg
  srv_load_cfg-configured fopen cfg_path bufs obj cfg opened parsed typed =
      ap (λ f. load_file json f cfg) opened
      ∙ ap (λ o. load_parsed json o cfg) parsed
      ∙ ap (λ r. r >>= λ cfg'. ok (config_ok, cfg')) (update_config-configured obj cfg typed)
