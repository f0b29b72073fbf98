-- ===== src/Tests/Hset.antt =====
-- Calls on a set.
use mini_pubsub_broker.Base.{ℕ, ◌≡◌, false, none, some, List, [], ◌∷◌, codes}
use mini_pubsub_broker.Samples.Tables.{ght}
use mini_pubsub_broker.Hset.{hset_create, hset_has}
use mini_pubsub_broker.Hset.Members.{
  SetCall, inserting, removing, keys_behind, run_calls, hset_has-keys_behind,
}
use mini_pubsub_broker.Tests.Delivery.{has_room}

abbrev calls : List (SetCall ℕ)
calls =
    inserting (codes "one") (some 1)
    ∷ inserting (codes "two") none
    ∷ removing (codes "one")
    ∷ inserting (codes "two") (some 2)
    ∷ []

hset_has-keys_behind_example :
    hset_has ght (run_calls ght calls (hset_create ght ℕ 16)) (codes "two")
    ≡ keys_behind calls (λ k. false) (codes "two")
hset_has-keys_behind_example = hset_has-keys_behind ght calls 16 (codes "two") has_room
