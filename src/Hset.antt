-- ===== src/Hset.antt =====
-- src/common/hset.c: sets of keys with an optional value, over a hash table.
pub mod Members
use mini_pubsub_broker.Base.{ℕ, Bool, true, false, Option, none, some, List, Bytes}
use mini_pubsub_broker.Ght.{Ght, Insert}

-- A value: the `fake_val` of the set, or the caller's pointer.
pub data Item (V : Type 0) : Type 0 where
  fake : Item V
  item : V → Item V

module _ (g : Ght) where
  open g use {Table, ght_create, ght_size, ght_insert, ght_get, ght_remove, entries}

  -- `hset`; `fake_val` is the same text in every set.
  pub record Hset (V : Type 0) : Type 0 where
    pub table : Table (Item V)

  unfoldable pub hset_create : (V : Type 0) → ℕ → Hset V
  hset_create V size = record { table = ght_create (Item V) size }

  module _ {V : Type 0} where
    unfoldable pub hset_size : Hset V → ℕ
    hset_size hs = ght_size hs.table

    -- `none` is a NULL value.
    abbrev pub to_item : Option V → Item V
    to_item none = fake
    to_item (some v) = item v

    unfoldable pub hset_insert : Hset V → Bytes → Option V → Insert × Hset V
    hset_insert hs k v =
        let (status, t) = ght_insert hs.table (to_item v) k in (status, record { table = t })

    unfoldable pub hset_remove : Hset V → Bytes → Option (Item V) × Hset V
    hset_remove hs k = let (v, t) = ght_remove hs.table k in (v, record { table = t })

    abbrev pub is_some : Option (Item V) → Bool
    is_some none = false
    is_some (some v) = true

    unfoldable pub hset_has : Hset V → Bytes → Bool
    hset_has hs k = is_some (ght_get hs.table k)

    -- A set whose memory has been given back.
    abbrev pub hset_release : Hset V → Option (Hset V)
    hset_release hs = none

    -- What `hset_first` and the calls of `hset_next` yield.
    unfoldable pub hset_items : Hset V → List (Bytes × Item V)
    hset_items hs = entries hs.table
