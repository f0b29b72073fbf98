-- ===== src/Ght.antt =====
-- The calls of the hash table library (src/common/ght_hash_table.c, a copy of libghthash). A key is
-- the bytes of its memory. The laws are what ght_hash_table.h documents of each call.
use mini_pubsub_broker.Base.{ℕ, ◌≡◌, ◌≢◌, Option, none, some, List, [], ◌∷◌, ◌++◌, Bytes}

-- The results 0, -1 and -2 of `ght_insert`.
pub data Insert : Type 0 where
  inserted exists no_memory : Insert

pub record Ght : Type 1 where
  pub Table : Type 0 → Type 0
  pub ght_create : (V : Type 0) → ℕ → Table V
  pub ght_size : {V : Type 0} → Table V → ℕ
  pub ght_insert : {V : Type 0} → Table V → V → Bytes → Insert × Table V
  pub ght_get : {V : Type 0} → Table V → Bytes → Option V
  pub ght_remove : {V : Type 0} → Table V → Bytes → Option V × Table V
  -- What `ght_first` and the calls of `ght_next` yield, from the oldest entry to the newest.
  pub entries : {V : Type 0} → Table V → List (Bytes × V)
  pub get-create : {V : Type 0} (n : ℕ) (k : Bytes) → ght_get (ght_create V n) k ≡ none
  pub entries-create : {V : Type 0} (n : ℕ) → entries (ght_create V n) ≡ []
  pub insert-exists :
      {V : Type 0} (t : Table V) (v w : V) (k : Bytes)
      → ght_get t k ≡ some w
      → ght_insert t v k ≡ (exists, t)
  pub insert-refused :
      {V : Type 0} (t : Table V) (v : V) (k : Bytes)
      → (ght_insert t v k).0 ≢ inserted
      → (ght_insert t v k).1 ≡ t
  pub get-insert_self :
      {V : Type 0} (t : Table V) (v : V) (k : Bytes)
      → (ght_insert t v k).0 ≡ inserted
      → ght_get (ght_insert t v k).1 k ≡ some v
  pub get-insert_ne :
      {V : Type 0} (t : Table V) (v : V) (k j : Bytes)
      → k ≢ j
      → ght_get (ght_insert t v k).1 j ≡ ght_get t j
  pub get-remove_self : {V : Type 0} (t : Table V) (k : Bytes) → ght_get (ght_remove t k).1 k ≡ none
  pub get-remove_ne :
      {V : Type 0} (t : Table V) (k j : Bytes) → k ≢ j → ght_get (ght_remove t k).1 j ≡ ght_get t j
  pub entries-insert :
      {V : Type 0} (t : Table V) (v : V) (k : Bytes)
      → (ght_insert t v k).0 ≡ inserted
      → entries (ght_insert t v k).1 ≡ entries t ++ ((k, v) ∷ [])

-- A table takes every key that it does not hold: there is memory.
abbrev pub HasRoom : Ght → Type 1
HasRoom g =
    (V : Type 0) (t : g.Table V) (v : V) (k : Bytes)
    → g.ght_get t k ≡ none
    → (g.ght_insert t v k).0 ≡ inserted
