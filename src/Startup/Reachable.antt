-- ===== src/Startup/Reachable.antt =====
-- The states that the event loop can come to behind a start.
use mini_pubsub_broker.Base.{ℕ, ◌+◌, ◌≡◌, true, some, List, [], ◌∷◌, ◌++◌, Bytes, length}
use mini_pubsub_broker.Client.{ok, Events}
use mini_pubsub_broker.TrieUtil.{conv_to_alpha}
use mathlib.Core.Path.{subst}
use mini_pubsub_broker.Broker.{Server, pub_cli_create}
use mini_pubsub_broker.Broker.Valid.{IsValid}
use mini_pubsub_broker.Broker.Handlers.Reach.{Reach, Reach-IsValid}
use mini_pubsub_broker.Broker.Handlers.{received, pub_ev_handler}
use mini_pubsub_broker.Broker.Handlers.Session.{readable}
use mini_pubsub_broker.Broker.Handlers.Live.{IsLive, pub_ev_handler-IsOpen}
use mini_pubsub_broker.Startup.{running, Opt, Calls, Broker, start}
use mini_pubsub_broker.Startup.Going.{Holds}
use mini_pubsub_broker.Startup.Ready.{TablesValid}
use mini_pubsub_broker.Startup.Watched.{IsServing, start-IsServing}

module _ (sys : Calls) where
  open sys use {libs}

  -- However the handlers are run behind a start that comes to its event loop, in whatever order
  -- and with whatever bytes, as long as each returns and subscribers are accepted at some addresses
  -- only, the alphabet of the trie is a to z and A to Z, no live connection has more bytes in its
  -- write buffer than the buffer's array holds, and the live connections and all that the sets of
  -- the channels hold are at these addresses.
  pub start-IsValid :
      (Q : ℕ → Type 0) (opts : List Opt) (b : Broker sys) (srv srv' : Server libs)
      → start sys opts ≡ running b
      → b.server ≡ some srv
      → Reach libs Q srv srv'
      → IsValid libs Q srv'
  start-IsValid Q opts b srv srv' runs made r =
      let serving = subst (Holds (IsServing sys opts)) runs (start-IsServing sys opts) in
      Reach-IsValid libs Q r (subst (TablesValid sys) made serving.has_sockets.tables Q)

  -- Behind a start, however the handlers have been run, with subscribers at some addresses only: as
  -- long as each of these has a live connection, a message of a new publisher that iconv converts
  -- to its own bytes is published without a fault and without an endless loop, and these
  -- connections stay live, if libevent makes its events.
  pub start-publishes :
      (Q : ℕ → Type 0) (opts : List Opt) (b : Broker sys) (srv srv' : Server libs) (cfd : ℕ)
      (msg : Bytes)
      → ((fd : ℕ) (e : Events) → libs.libevent.event_new fd e ≡ true)
      → start sys opts ≡ running b
      → b.server ≡ some srv
      → Reach libs Q srv srv'
      → ((q : ℕ) → Q q → IsLive (srv'.clients q))
      → conv_to_alpha libs.iconv msg (length msg + 1) ≡ msg ++ (0 ∷ [])
      → (srv'' : Server libs) × (pub_ev_handler libs srv'
            (pub_cli_create cfd)
            readable
            (received msg)
          ≡ ok (some (pub_cli_create cfd), srv''))
        × ((q : ℕ) → Q q → IsLive (srv''.clients q))
  start-publishes Q opts b srv srv' cfd msg events runs made r live plain =
      let valid = start-IsValid Q opts b srv srv' runs made r in
      let (srv'', e, open_srv) =
        pub_ev_handler-IsOpen libs events Q srv' cfd msg (live, valid.2) plain in
      (srv'', e, open_srv.0)
