-- ===== src/Hset/Members.antt =====
-- A set against a test of keys.
use mini_pubsub_broker.Base.{
  ℕ, ◌≡◌, ◌≢◌, refl, ap, ◌∙◌, Bool, true, false, Option, none, some, List, [], ◌∷◌, Bytes,
}
use native.Mathlib.Decide.{ℕ_discrete}
use mathlib.Core.List.{List-discrete}
use mathlib.Core.Path.{subst}
use mini_pubsub_broker.Ght.{Ght, HasRoom}
use mini_pubsub_broker.Hset.{
  Hset, Item, to_item, is_some, hset_create, hset_insert, hset_remove, hset_has,
}

-- Calls of the functions of a set.
pub data SetCall (V : Type 0) : Type 0 where
  inserting : Bytes → Option V → SetCall V
  removing : Bytes → SetCall V

-- A test that is told what to say of one key.
abbrev pub update : Bytes → Bool → (Bytes → Bool) → Bytes → Bool
update k b f j = elim (List-discrete ℕ_discrete k j) [ yes e ↦ b | no ne ↦ f j ]

update-cases :
    (P : Bool → Type 0) (k j : Bytes) (b : Bool) (f : Bytes → Bool)
    → (k ≡ j → P b)
    → (k ≢ j → P (f j))
    → P (update k b f j)
update-cases P k j b f here there =
    elim (List-discrete ℕ_discrete k j) as (λ d. P (elim d [ yes e ↦ b | no ne ↦ f j ])) [
      | yes e ↦ here e
      | no ne ↦ there ne
    ]

module _ {V : Type 0} where
  -- The keys that are in, behind some calls.
  unfoldable pub keys_behind : List (SetCall V) → (Bytes → Bool) → Bytes → Bool
  keys_behind [] f = f
  keys_behind (inserting k v ∷ calls) f = keys_behind calls (update k true f)
  keys_behind (removing k ∷ calls) f = keys_behind calls (update k false f)

module _ (g : Ght) {V : Type 0} where
  unfoldable pub run_calls : List (SetCall V) → Hset g V → Hset g V
  run_calls [] hs = hs
  run_calls (inserting k v ∷ calls) hs = run_calls calls (hset_insert g hs k v).1
  run_calls (removing k ∷ calls) hs = run_calls calls (hset_remove g hs k).1

  get-insert :
      (t : g.Table (Item V)) (i : Item V) (k : Bytes) (o : Option (Item V))
      → HasRoom g
      → g.ght_get t k ≡ o
      → is_some g (g.ght_get (g.ght_insert t i k).1 k) ≡ true
  get-insert t i k none has_room e =
      ap (is_some g) (g.get-insert_self t i k (has_room (Item V) t i k e))
  get-insert t i k (some w) has_room e =
      ap (λ r. is_some g (g.ght_get r.1 k)) (g.insert-exists t i w k e) ∙ ap (is_some g) e

  hset_has-insert :
      (hs : Hset g V) (f : Bytes → Bool) (k : Bytes) (v : Option V)
      → HasRoom g
      → ((j : Bytes) → hset_has g hs j ≡ f j)
      → (j : Bytes) → hset_has g (hset_insert g hs k v).1 j ≡ update k true f j
  unfolding hset_has hset_insert
  hset_has-insert hs f k v has_room same j =
      let t' = (g.ght_insert hs.table (to_item g v) k).1 in
      update-cases (λ b. is_some g (g.ght_get t' j) ≡ b) k j true f
        (λ e.
          subst (λ x. is_some g (g.ght_get t' x) ≡ true) e
            (get-insert hs.table (to_item g v) k (g.ght_get hs.table k) has_room refl))
        (λ ne. ap (is_some g) (g.get-insert_ne hs.table (to_item g v) k j ne) ∙ same j)

  hset_has-remove :
      (hs : Hset g V) (f : Bytes → Bool) (k : Bytes)
      → ((j : Bytes) → hset_has g hs j ≡ f j)
      → (j : Bytes) → hset_has g (hset_remove g hs k).1 j ≡ update k false f j
  unfolding hset_has hset_remove
  hset_has-remove hs f k same j =
      let t' = (g.ght_remove hs.table k).1 in
      update-cases (λ b. is_some g (g.ght_get t' j) ≡ b) k j false f
        (λ e.
          subst (λ x. is_some g (g.ght_get t' x) ≡ false) e
            (ap (is_some g) (g.get-remove_self hs.table k)))
        (λ ne. ap (is_some g) (g.get-remove_ne hs.table k j ne) ∙ same j)

  hset_has-calls :
      (calls : List (SetCall V)) (hs : Hset g V) (f : Bytes → Bool)
      → HasRoom g
      → ((j : Bytes) → hset_has g hs j ≡ f j)
      → (j : Bytes) → hset_has g (run_calls calls hs) j ≡ keys_behind calls f j
  unfolding run_calls keys_behind
  hset_has-calls [] hs f has_room same = same
  hset_has-calls (inserting k v ∷ calls) hs f has_room same =
      hset_has-calls calls (hset_insert g hs k v).1 (update k true f) has_room
        (hset_has-insert hs f k v has_room same)
  hset_has-calls (removing k ∷ calls) hs f has_room same =
      hset_has-calls calls (hset_remove g hs k).1 (update k false f) has_room
        (hset_has-remove hs f k same)

  -- A new set, behind any calls that insert and remove, has exactly the keys of which the last call
  -- inserts, where the hash table has memory.
  pub hset_has-keys_behind :
      (calls : List (SetCall V)) (n : ℕ) (j : Bytes)
      → HasRoom g
      → hset_has g (run_calls calls (hset_create g V n)) j ≡ keys_behind calls (λ k. false) j
  unfolding hset_has hset_create
  hset_has-keys_behind calls n j has_room =
      hset_has-calls calls (hset_create g V n) (λ k. false) has_room
        (λ k. ap (is_some g) (g.get-create n k)) j
