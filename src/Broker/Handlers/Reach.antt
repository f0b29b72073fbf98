-- ===== src/Broker/Handlers/Reach.antt =====
-- The event loop as a sequence of handlers that return, in any order.
use mini_pubsub_broker.Base.{ℕ, ◌≡◌, Option, List, Bytes}
use mini_pubsub_broker.Client.{ok, Events}
use mini_pubsub_broker.Client.Create.{Origin}
use mini_pubsub_broker.Client.Returns.{of_Returns}
use mini_pubsub_broker.Reply.Send.{Written}
use mini_pubsub_broker.Broker.{Libraries, Server, PubClient}
use mini_pubsub_broker.Broker.Valid.{IsValid}
use mini_pubsub_broker.Broker.Handlers.{
  Received, sub_ev_handler, pub_ev_handler, accept_sub_handler,
}
use mini_pubsub_broker.Broker.Handlers.Publishing.{PubValid, pub_ev_handler-IsValid}
use mini_pubsub_broker.Broker.Handlers.Invariant.{
  SubValid, sub_ev_handler-IsValid, accept_sub_handler-IsValid,
}

module _ (libs : Libraries) (Q : ℕ → Type 0) where
  -- A handler that returns; connections of subscribers come at some addresses only.
  -- `accept_pub_handler` changes nothing that is shared.
  pub data Step : Server libs → Server libs → Type 0 where
    sub_ready :
        {srv srv' : Server libs} (p : ℕ) (event : Events) (r : Received) (junk : Written)
        (ws : List Written) (out : Bytes)
        → sub_ev_handler libs srv p event r junk ws ≡ ok (srv', out)
        → Step srv srv'
    pub_ready :
        {srv srv' : Server libs} (c : PubClient) (event : Events) (r : Received)
        (c' : Option PubClient)
        → pub_ev_handler libs srv c event r ≡ ok (c', srv')
        → Step srv srv'
    sub_accepted :
        {srv srv' : Server libs} (cfd : Option ℕ) (p : ℕ) (o : Origin)
        → Q p
        → accept_sub_handler libs srv cfd p o ≡ ok srv'
        → Step srv srv'

  pub data Reach (srv : Server libs) : Server libs → Type 0 where
    here : Reach srv srv
    next : {t u : Server libs} → Reach srv t → Step t u → Reach srv u

  Step-IsValid : {srv srv' : Server libs} → Step srv srv' → IsValid libs Q srv → IsValid libs Q srv'
  Step-IsValid {srv} {srv'} (sub_ready p event r junk ws out e) v =
      of_Returns (SubValid libs Q) (sub_ev_handler libs srv p event r junk ws) (srv', out)
        (sub_ev_handler-IsValid libs Q srv p event r junk ws v) e
  Step-IsValid {srv} {srv'} (pub_ready c event r c' e) v =
      of_Returns (PubValid libs Q) (pub_ev_handler libs srv c event r) (c', srv')
        (pub_ev_handler-IsValid libs Q srv c event r v) e
  Step-IsValid {srv} {srv'} (sub_accepted cfd p o among e) v =
      of_Returns (IsValid libs Q) (accept_sub_handler libs srv cfd p o) srv'
        (accept_sub_handler-IsValid libs Q srv cfd p o v among) e

  pub Reach-IsValid :
      {srv srv' : Server libs} → Reach srv srv' → IsValid libs Q srv → IsValid libs Q srv'
  Reach-IsValid here v = v
  Reach-IsValid (next r st) v = Step-IsValid st (Reach-IsValid r v)
