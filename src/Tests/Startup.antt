-- ===== src/Tests/Startup.antt =====
-- A start with the default settings, and starts that end early.
use mini_pubsub_broker.Base.{
  ℕ, ◌≡◌, refl, Bool, true, false, Option, none, some, [], ◌∷◌, Bytes, codes, if◌then◌else◌,
}
use mini_pubsub_broker.Number.Print.{print}
use mini_pubsub_broker.Samples.{libs, letters}
use mini_pubsub_broker.Samples.Keys.{bytes_eq}
use mini_pubsub_broker.Net.{Net, Sockets, net_tcp_server}
use mini_pubsub_broker.Config.{default_settings, srv_load_cfg}
use mini_pubsub_broker.TrieUtil.{Locales, trie_create}
use mini_pubsub_broker.Startup.{
  running, crashed, Calls, Broker, pub_ev_freed, sub_ev_freed, base_freed, read_options, start,
  main,
}
use mini_pubsub_broker.Startup.Order.{Prepared, main-no_signal}
use mini_pubsub_broker.Startup.Watched.{IsServing, start-watched}
use mini_pubsub_broker.Startup.Serving.{Serves, Begins, start-Begins}
use mini_pubsub_broker.Tests.Config.{json}

abbrev socket_of : Bytes → Option ℕ
socket_of port = if bytes_eq port (codes "5561") then some 3 else some 4

abbrev sockets : Sockets
sockets = record {
  Address = Bytes;
  getaddrinfo = λ bindaddr port family. some (port ∷ []);
  socket = socket_of;
  set_v6only = λ s. true;
  set_reuse = λ s. true;
  bind = λ s a. true;
  listen = λ s backlog. true;
}

abbrev locales : Locales
locales = record {
  Conv = Bytes;
  environment = some (codes "en_US.UTF-8");
  locale_charset = λ l. codes "UTF-8";
  iconv_open = λ to from. from;
}

-- No configuration file is there.
abbrev pub calls : Bool → Calls
calls signal = record {
  libs = libs;
  json = json [];
  sockets = sockets;
  locales = locales;
  get_flags = λ fd. some 2;
  set_flags = λ fd flags. true;
  counter = 77;
  signal = signal;
  event_base_new = true;
  event_new = λ fd. true;
  read_file = λ path. none;
  can_write = λ path. true;
}

pub prepared_no_options :
    (signal : Bool) → Prepared (calls signal) [] default_settings default_settings
unfolding read_options srv_load_cfg
prepared_no_options signal = record {
  options = refl;
  config = refl;
  log_file = refl;
  pid_file = refl;
}

abbrev pub net_3 : Net
net_3 = record { err = some none; opened = 3 ∷ [] }

abbrev pub net_4 : Net
net_4 = record { err = some none; opened = 4 ∷ 3 ∷ [] }

pub serves : Serves (calls true) default_settings 3 4 net_3 net_4 (letters, [])
unfolding net_tcp_server print trie_create
serves = record {
  signal = refl;
  event_base_new = refl;
  trie = refl;
  pub_socket = refl;
  pub_watched = refl;
  sub_socket = refl;
  sub_watched = refl;
}

start-Begins_example :
    (b : Broker (calls true)) × (start (calls true) [] ≡ running b)
    × Begins (calls true) default_settings 3 4 net_4 b
start-Begins_example =
    start-Begins (calls true) [] default_settings default_settings 3 4 net_3 net_4 (letters, [])
      (prepared_no_options true) serves

start-watched_example :
    let b =
      (start-Begins
        (calls true)
        []
        default_settings
        default_settings
        3
        4
        net_3
        net_4
        (letters, [])
        (prepared_no_options true)
        serves).0 in
    IsServing (calls true) [] b
    × (main (calls true) [] ≡ running (pub_ev_freed ∷ sub_ev_freed ∷ base_freed ∷ []))
start-watched_example =
    let begins =
      start-Begins (calls true) [] default_settings default_settings 3 4 net_3 net_4 (letters, [])
        (prepared_no_options true) serves in
    start-watched (calls true) [] begins.0 begins.1

main-no_signal_example : main (calls false) [] ≡ crashed
main-no_signal_example =
    main-no_signal (calls false) [] default_settings default_settings (prepared_no_options false)
      refl
