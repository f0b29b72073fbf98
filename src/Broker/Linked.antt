-- ===== src/Broker/Linked.antt =====
-- The addresses that the sets of the channels hold.
use mini_pubsub_broker.Base.{
  ℕ, ◌≡◌, ◌≢◌, refl, sym, Option, none, some, List, [], ◌∷◌, ◌++◌, Bytes, inl, inr, ◌⊎◌,
}
use native.Mathlib.Decide.{ℕ_discrete}
use mathlib.Core.List.{List-discrete}
use mathlib.Core.Path.{subst}
use mini_pubsub_broker.Ght.{Insert, inserted, exists, no_memory}
use mini_pubsub_broker.Hset
use mini_pubsub_broker.Hset.{Hset, Item, fake, item}
use mini_pubsub_broker.Broker.{Libraries, sub_set_len}
use mini_pubsub_broker.Broker.Subscribe.{first_set}

-- Whether a table took an entry.
taken : (r : Insert) → (r ≡ inserted) ⊎ (r ≢ inserted)
taken inserted = inl refl
taken exists = inr (λ e. cc)
taken no_memory = inr (λ e. cc)

module _ (libs : Libraries) (Q : ℕ → Type 0) where
  open libs use {ght}

  -- An item is the address of a connection, and among some addresses.
  abbrev pub ItemIn : Item ℕ → Type 0
  ItemIn fake = ⊥
  ItemIn (item q) = Q q

  abbrev pub AllIn : List (Bytes × Item ℕ) → Type 0
  AllIn [] = Unit {0}
  AllIn ((id, i) ∷ items) = ItemIn i × AllIn items

  abbrev pub SetIn : Option (Hset ght ℕ) → Type 0
  SetIn none = Unit {0}
  SetIn (some hs) = AllIn (Hset.hset_items ght hs)

  -- The set of every channel.
  abbrev pub SetsIn : ght.Table (Hset ght ℕ) → Type 0
  SetsIn t = (channel : Bytes) → SetIn (ght.ght_get t channel)

  AllIn-last :
      (items : List (Bytes × Item ℕ)) (id : Bytes) (i : Item ℕ)
      → AllIn items
      → ItemIn i
      → AllIn (items ++ ((id, i) ∷ []))
  AllIn-last [] id i all here = (here, tt)
  AllIn-last ((id', i') ∷ items) id i all here = (all.0, AllIn-last items id i all.1 here)

  ght_insert-AllIn :
      (t : ght.Table (Item ℕ)) (i : Item ℕ) (id : Bytes)
      → AllIn (ght.entries t)
      → ItemIn i
      → AllIn (ght.entries (ght.ght_insert t i id).1)
  ght_insert-AllIn t i id all here = elim (taken (ght.ght_insert t i id).0) [
    | inl e ↦
        subst AllIn (sym (ght.entries-insert t i id e)) (AllIn-last (ght.entries t) id i all here)
    | inr ne ↦ subst (λ u. AllIn (ght.entries u)) (sym (ght.insert-refused t i id ne)) all
  ]

  first_set-SetIn : (p : ℕ) (id : Bytes) → Q p → SetIn (some (first_set libs p id))
  unfolding Hset.hset_items Hset.hset_insert Hset.hset_create
  first_set-SetIn p id here =
      ght_insert-AllIn (ght.ght_create (Item ℕ) sub_set_len) (item p) id
        (subst AllIn (sym (ght.entries-create sub_set_len)) tt) here

  ght_insert-SetsIn :
      (t : ght.Table (Hset ght ℕ)) (hs : Hset ght ℕ) (channel : Bytes)
      → SetsIn t
      → SetIn (some hs)
      → SetsIn (ght.ght_insert t hs channel).1
  ght_insert-SetsIn t hs channel sets here other = elim (List-discrete ℕ_discrete channel other) [
    | yes same ↦
        subst (λ k. SetIn (ght.ght_get (ght.ght_insert t hs channel).1 k)) same
          (elim (taken (ght.ght_insert t hs channel).0) [
            | inl e ↦ subst SetIn (sym (ght.get-insert_self t hs channel e)) here
            | inr ne ↦
                subst (λ u. SetIn (ght.ght_get u channel))
                  (sym (ght.insert-refused t hs channel ne)) (sets channel)
          ])
    | no ne ↦ subst SetIn (sym (ght.get-insert_ne t hs channel other ne)) (sets other)
  ]

  -- A set for a new channel holds the connection that subscribes.
  pub ght_insert-first_set :
      (t : ght.Table (Hset ght ℕ)) (p : ℕ) (id channel : Bytes)
      → SetsIn t
      → Q p
      → SetsIn (ght.ght_insert t (first_set libs p id) channel).1
  ght_insert-first_set t p id channel sets here =
      ght_insert-SetsIn t (first_set libs p id) channel sets (first_set-SetIn p id here)
