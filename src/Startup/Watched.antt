-- ===== src/Startup/Watched.antt =====
-- What a start that comes to its event loop has done before.
use mini_pubsub_broker.Base.{◌≡◌, refl, ap, ◌∙◌, sym, true, some, List, [], ◌∷◌}
use mathlib.Core.Path.{subst}
use mini_pubsub_broker.Client.{Run, ok}
use mini_pubsub_broker.Config.{Settings, ConfigStatus, config_ok, default_settings, srv_load_cfg}
use mini_pubsub_broker.Startup.{
  running, ◌>>=◌, Opt, Calls, Broker, pub_ev_freed, sub_ev_freed, base_freed, server_config_init,
  server_init, server_evloop_start, server_free, read_options, loaded, need_file, read_settings,
  open_files, run_server, open_and_run, start, main,
}
use mini_pubsub_broker.Startup.Order.{Prepared, prepared}
use mini_pubsub_broker.Startup.Going.{
  Holds, Holds-bind, Holds-if, Holds-map, Holds-self, loaded-Holds,
}
use mini_pubsub_broker.Startup.Ready.{HasSockets, IsReady, server_init-IsReady}

module _ (sys : Calls) where
  open sys use {libs, json}

  -- Every call of a start has succeeded, and the broker holds the two sockets.
  pub record IsServing (opts : List Opt) (b : Broker sys) : Type 1 where
    pub given : Settings
    pub cfg : Settings
    pub was_prepared : Prepared sys opts given cfg
    pub signal : sys.signal ≡ true
    pub event_base_new : sys.event_base_new ≡ true
    pub has_sockets : HasSockets sys cfg b

  run_server-IsServing :
      (opts : List Opt) (given cfg : Settings)
      → Prepared sys opts given cfg
      → Holds (IsServing opts) (run_server sys (prepared sys cfg))
  unfolding run_server server_evloop_start
  run_server-IsServing opts given cfg prep =
      Holds-bind (IsReady sys cfg) (IsServing opts) (server_init sys (prepared sys cfg))
        (server_evloop_start sys) (server_init-IsReady sys cfg)
        λ b ready.
          Holds-if (IsServing opts) b.evloop _ _
            (λ e.
              let (sig, base, h) = ready e in
              record {
                given = given;
                cfg = cfg;
                was_prepared = prep;
                signal = sig;
                event_base_new = base;
                has_sockets = h;
              })
            (λ e. tt)

  abbrev HasFiles : Settings → Broker sys → Type 0
  HasFiles cfg b =
      (b ≡ prepared sys cfg)
      × (sys.can_write cfg.log_file ≡ true)
      × (sys.can_write cfg.pid_file ≡ true)

  open_files-HasFiles :
      (cfg : Settings)
      → Holds (HasFiles cfg) (open_files sys (record (server_config_init sys) { settings = cfg }))
  unfolding open_files server_config_init
  open_files-HasFiles cfg =
      let HasLog : Broker sys → Type 0 =
        λ b. (b ≡ prepared sys cfg) × (sys.can_write cfg.log_file ≡ true) in
      Holds-bind HasLog (HasFiles cfg) (need_file sys cfg.log_file (prepared sys cfg))
        (λ b. need_file sys b.settings.pid_file b)
        (Holds-if HasLog (sys.can_write cfg.log_file) _ _ (λ e. (refl, e)) (λ e. tt))
        (λ b (same, e).
          Holds-if (HasFiles cfg) (sys.can_write b.settings.pid_file) _ _
            (λ e'. (same, e, subst (λ b'. sys.can_write b'.settings.pid_file ≡ true) same e'))
            (λ e'. tt))

  abbrev HasSettings : List Opt → Settings → Type 0
  HasSettings opts cfg =
      (given : Settings) × (read_options opts default_settings ≡ running given)
      × (srv_load_cfg json sys.read_file (some given.cfg_path) given ≡ ok (config_ok, cfg))

  read_settings-HasSettings :
      (opts : List Opt) → Holds (HasSettings opts) (read_settings sys opts default_settings)
  unfolding read_settings
  read_settings-HasSettings opts =
      let load : Settings → Run (ConfigStatus × Settings) =
        λ given. srv_load_cfg json sys.read_file (some given.cfg_path) given in
      Holds-bind (λ given. read_options opts default_settings ≡ running given) (HasSettings opts)
        (read_options opts default_settings) (λ given. loaded (load given)) (Holds-self _)
        (λ given e.
          Holds-map (λ cfg. load given ≡ ok (config_ok, cfg)) (HasSettings opts)
            (loaded (load given)) (λ cfg e'. (given, e, e')) (loaded-Holds (load given)))

  open_and_run-IsServing :
      (opts : List Opt) (cfg : Settings)
      → HasSettings opts cfg
      → Holds (IsServing opts) (open_and_run sys cfg)
  unfolding open_and_run
  open_and_run-IsServing opts cfg (given, e, e') =
      Holds-bind (HasFiles cfg) (IsServing opts)
        (open_files sys (record (server_config_init sys) { settings = cfg })) (run_server sys)
        (open_files-HasFiles cfg)
        (λ b (same, log, pid).
          subst (λ b'. Holds (IsServing opts) (run_server sys b')) (sym same)
            (run_server-IsServing opts given cfg
              (record { options = e; config = e'; log_file = log; pid_file = pid })))

  pub start-IsServing : (opts : List Opt) → Holds (IsServing opts) (start sys opts)
  unfolding start server_config_init
  start-IsServing opts =
      Holds-bind (HasSettings opts) (IsServing opts) (read_settings sys opts default_settings)
        (open_and_run sys) (read_settings-HasSettings opts) (open_and_run-IsServing opts)

  -- A start comes to the event loop only if the options and the configuration could be read, the log
  -- and the pid file could be opened, SIGPIPE was ignored and the event base was made, and
  -- `net_tcp_server` made one listening socket for the publishers' address and then one for the
  -- subscribers', both with their events. The broker then holds these two descriptors, and the end
  -- of `main` gives both events and the event base back.
  pub start-watched :
      (opts : List Opt) (b : Broker sys)
      → start sys opts ≡ running b
      → IsServing opts b × (main sys opts ≡ running (pub_ev_freed ∷ sub_ev_freed ∷ base_freed ∷ []))
  unfolding main server_free
  start-watched opts b h =
      let serving = subst (Holds (IsServing opts)) h (start-IsServing opts) in
      let sockets_of = serving.has_sockets in
      (
        serving,
        ap (λ m. m >>= λ b'. running (server_free sys b')) h
            ∙ rw (sockets_of.pub_ev, sockets_of.sub_ev, sockets_of.evloop) refl,
      )
