-- ===== src/Tests/Config.antt =====
-- Configurations as lists of items.
use mini_pubsub_broker.Base.{◌≡◌, refl, Option, none, some, List, [], ◌∷◌, Bytes, ℤ, pos, codes}
use mini_pubsub_broker.Libc.{c_string}
use mini_pubsub_broker.Samples.Tables.{find}
use mini_pubsub_broker.Client.{ok}
use mini_pubsub_broker.Config.{Json, default_settings, config_ok, read_config, srv_load_cfg}
use mini_pubsub_broker.Config.Load.{configured, IsTyped, srv_load_cfg-configured}
use mini_pubsub_broker.Config.Outcome.{Loaded, srv_load_cfg-Loaded}

-- A text or a number.
abbrev pub Value : Type 0
Value = Option Bytes × ℤ

-- Every file but an empty one is parsed to the same object.
abbrev pub parsed : List (Bytes × Value) → Bytes → Option (List (Bytes × Value))
parsed obj [] = none
parsed obj (b ∷ text) = some obj

abbrev pub json : List (Bytes × Value) → Json
json obj = record {
  Object = List (Bytes × Value);
  Item = Value;
  parse = parsed obj;
  get_object_item = find;
  valuestring = λ (s, n). s;
  valueint = λ (s, n). n;
}

abbrev address_and_port : List (Bytes × Value)
address_and_port =
    (codes "pub_ip", (some (codes "10.0.0.1"), pos 0)) ∷ (codes "sub_port", (none, pos 7000)) ∷ []

abbrev fopen : Bytes → Option (List Bytes)
fopen path = some (codes "{}" ∷ [])

typed : IsTyped (json address_and_port) address_and_port
typed = record { pub_ip = (codes "10.0.0.1", refl); sub_ip = tt; log_file = tt; pid_file = tt }

srv_load_cfg-configured_example :
    srv_load_cfg (json address_and_port) fopen (some (codes "my.conf")) default_settings
    ≡ ok (config_ok, configured (json address_and_port) address_and_port default_settings)
unfolding read_config c_string
srv_load_cfg-configured_example =
    srv_load_cfg-configured (json address_and_port) fopen (codes "my.conf") (codes "{}" ∷ [])
      address_and_port default_settings refl refl typed

-- A number in place of the last text, behind a text that is one.
abbrev number_as_file : List (Bytes × Value)
number_as_file =
    (codes "pub_ip", (some (codes "10.0.0.1"), pos 0)) ∷ (codes "pid_file", (none, pos 10)) ∷ []

srv_load_cfg-Loaded_example :
    Loaded
      (json number_as_file)
      default_settings
      (fopen (codes "my.conf"))
      (srv_load_cfg (json number_as_file) fopen (some (codes "my.conf")) default_settings)
srv_load_cfg-Loaded_example =
    srv_load_cfg-Loaded (json number_as_file) fopen (codes "my.conf") default_settings
