-- ===== src/Config/Outcome.antt =====
-- How `srv_load_cfg` ends, for every configuration file.
use mini_pubsub_broker.Base.{◌≡◌, refl, sym, Option, none, some, List, Bytes, codes, inl, inr, ◌⊎◌}
use mathlib.Core.Path.{subst}
use mini_pubsub_broker.Client.{Run, ok, fault, ◌>>=◌}
use mini_pubsub_broker.Config.{
  Settings, ConfigStatus, config_ok, config_err, Json, read_config, update_config, load_parsed,
  load_file, srv_load_cfg,
}
use mini_pubsub_broker.Config.Load.{
  HasText, IsTyped, text_or, number_or, configured, set_text-ok, set_number-ok,
  update_config-configured,
}

module _ (json : Json) where
  -- The item is there and holds no text.
  abbrev HasNoText : Option json.Item → Type 0
  HasNoText o = (i : json.Item) × (o ≡ some i) × (json.valuestring i ≡ none)

  text_cases :
      (i : json.Item) (o : Option Bytes)
      → json.valuestring i ≡ o
      → HasText json (some i) ⊎ HasNoText (some i)
  text_cases i none e = inr (i, refl, e)
  text_cases i (some s) e = inl (s, e)

  HasText-cases : (o : Option json.Item) → HasText json o ⊎ HasNoText o
  HasText-cases none = inl tt
  HasText-cases (some i) = text_cases i (json.valuestring i) refl

  HasNoText-not : (o : Option json.Item) → HasNoText o → ¬ HasText json o
  HasNoText-not none (i, e, e') t = cc
  HasNoText-not (some j) (i, e, e') (s, e'') = cc

  -- The first item for a text that holds none stops `update_config`.
  update_config-fault :
      (obj : json.Object) (c0 : Settings) → ¬ IsTyped json obj → update_config json obj c0 ≡ fault
  unfolding update_config
  update_config-fault obj c0 untyped =
      let item = json.get_object_item obj in
      let c1 : Settings = record c0 { pub_ip = text_or json (item (codes "pub_ip")) c0.pub_ip } in
      let c2 : Settings = record c1 { sub_ip = text_or json (item (codes "sub_ip")) c1.sub_ip } in
      let c3 : Settings = record c2 {
        pub_port = number_or json (item (codes "pub_port")) c2.pub_port;
      } in
      let c4 : Settings = record c3 {
        sub_port = number_or json (item (codes "sub_port")) c3.sub_port;
      } in
      elim (HasText-cases (item (codes "pub_ip"))) [
        | inr (i, e, e') ↦ rw (e, e') refl
        | inl pub_ip ↦
            let first =
              set_text-ok json (item (codes "pub_ip")) (λ s. record c0 { pub_ip = s }) c0.pub_ip c0
                pub_ip refl in
            elim (HasText-cases (item (codes "sub_ip"))) [
              | inr (i, e, e') ↦ rw (first, e, e') refl
              | inl sub_ip ↦
                  let second =
                    set_text-ok json (item (codes "sub_ip")) (λ s. record c1 { sub_ip = s })
                      c1.sub_ip c1 sub_ip refl in
                  let third =
                    set_number-ok json (item (codes "pub_port")) (λ n. record c2 { pub_port = n })
                      c2.pub_port c2 refl in
                  let fourth =
                    set_number-ok json (item (codes "sub_port")) (λ n. record c3 { sub_port = n })
                      c3.sub_port c3 refl in
                  elim (HasText-cases (item (codes "log_file"))) [
                    | inr (i, e, e') ↦ rw (first, second, third, fourth, e, e') refl
                    | inl log_file ↦
                        let fifth =
                          set_text-ok json (item (codes "log_file"))
                            (λ s. record c4 { log_file = s }) c4.log_file c4 log_file refl in
                        elim (HasText-cases (item (codes "pid_file"))) [
                          | inr (i, e, e') ↦ rw (first, second, third, fourth, fifth, e, e') refl
                          | inl pid_file ↦ absurd (
                              untyped (record {
                                pub_ip = pub_ip;
                                sub_ip = sub_ip;
                                log_file = log_file;
                                pid_file = pid_file;
                              }))
                        ]
                  ]
            ]
      ]

  IsTyped-cases : (obj : json.Object) → IsTyped json obj ⊎ ¬ IsTyped json obj
  IsTyped-cases obj =
      let item = json.get_object_item obj in
      elim (HasText-cases (item (codes "pub_ip"))) [
        | inr bad ↦ inr (λ t. HasNoText-not _ bad t.pub_ip)
        | inl pub_ip ↦ elim (HasText-cases (item (codes "sub_ip"))) [
          | inr bad ↦ inr (λ t. HasNoText-not _ bad t.sub_ip)
          | inl sub_ip ↦ elim (HasText-cases (item (codes "log_file"))) [
            | inr bad ↦ inr (λ t. HasNoText-not _ bad t.log_file)
            | inl log_file ↦ elim (HasText-cases (item (codes "pid_file"))) [
              | inr bad ↦ inr (λ t. HasNoText-not _ bad t.pid_file)
              | inl pid_file ↦ inl (record {
                pub_ip = pub_ip;
                sub_ip = sub_ip;
                log_file = log_file;
                pid_file = pid_file;
              })
            ]
          ]
        ]
      ]

  -- How a load of the chunks of a file ends, if there are any.
  pub data Loaded (cfg : Settings)
      : Option (List Bytes) → Run (ConfigStatus × Settings) → Type 0 where
    no_file : Loaded cfg none (ok (config_ok, cfg))
    not_parsed :
        (bufs : List Bytes)
        → json.parse (read_config bufs) ≡ none
        → Loaded cfg (some bufs) (ok (config_err, cfg))
    typed :
        (bufs : List Bytes) (obj : json.Object)
        → json.parse (read_config bufs) ≡ some obj
        → IsTyped json obj
        → Loaded cfg (some bufs) (ok (config_ok, configured json obj cfg))
    untyped :
        (bufs : List Bytes) (obj : json.Object)
        → json.parse (read_config bufs) ≡ some obj
        → ¬ IsTyped json obj
        → Loaded cfg (some bufs) fault

  load_parsed-Loaded :
      (cfg : Settings) (bufs : List Bytes) (o : Option json.Object)
      → json.parse (read_config bufs) ≡ o
      → Loaded cfg (some bufs) (load_parsed json o cfg)
  unfolding load_parsed
  load_parsed-Loaded cfg bufs none e = not_parsed bufs e
  load_parsed-Loaded cfg bufs (some obj) e = elim (IsTyped-cases obj) [
    | inl t ↦
        subst (λ (r : Run Settings). Loaded cfg (some bufs) (r >>= λ cfg'. ok (config_ok, cfg')))
          (sym (update_config-configured json obj cfg t)) (typed bufs obj e t)
    | inr bad ↦
        subst (λ (r : Run Settings). Loaded cfg (some bufs) (r >>= λ cfg'. ok (config_ok, cfg')))
          (sym (update_config-fault obj cfg bad)) (untyped bufs obj e bad)
  ]

  load_file-Loaded :
      (cfg : Settings) (chunks : Option (List Bytes))
      → Loaded cfg chunks (load_file json chunks cfg)
  unfolding load_file
  load_file-Loaded cfg none = no_file
  load_file-Loaded cfg (some bufs) = load_parsed-Loaded cfg bufs _ refl

  -- `srv_load_cfg` with a path keeps the settings where there is no file, keeps them and reports an
  -- error where the file is not parsed, takes over the six settings where the items `pub_ip`,
  -- `sub_ip`, `log_file` and `pid_file` hold texts as far as they are there, and copies from NULL, a
  -- fault, in every other case.
  pub srv_load_cfg-Loaded :
      (fopen : Bytes → Option (List Bytes)) (cfg_path : Bytes) (cfg : Settings)
      → Loaded cfg (fopen cfg_path) (srv_load_cfg json fopen (some cfg_path) cfg)
  unfolding srv_load_cfg
  srv_load_cfg-Loaded fopen cfg_path cfg = load_file-Loaded cfg (fopen cfg_path)
