-- ===== src/Samples/Tables.antt =====
-- Hash tables as lists with the newest entry first.
use mini_pubsub_broker.Base.{
  ℕ, suc, ◌≡◌, ◌≢◌, refl, ap, ◌∙◌, sym, Option, none, some, List, [], ◌∷◌, ◌++◌, Bytes,
  if◌then◌else◌, arith, Bool-cases, inl, inr,
}
use mini_pubsub_broker.Ght.{Ght, Insert, inserted, exists}
use mini_pubsub_broker.Samples.Keys.{bytes_eq, bytes_eq_refl, eq_of_bytes_eq, bytes_eq_ne}

module _ {V : Type 0} where
  abbrev pub find : List (Bytes × V) → Bytes → Option V
  find [] k = none
  find ((j, v) ∷ t) k = if bytes_eq j k then some v else find t k

  abbrev pub add_new : List (Bytes × V) → V → Bytes → Option V → Insert × List (Bytes × V)
  add_new t v k none = (inserted, (k, v) ∷ t)
  add_new t v k (some w) = (exists, t)

  abbrev pub oldest_first : List (Bytes × V) → List (Bytes × V)
  oldest_first [] = []
  oldest_first (e ∷ t) = oldest_first t ++ (e ∷ [])

  abbrev pub size : List (Bytes × V) → ℕ
  size [] = 0
  size (e ∷ t) = suc (size t)

  abbrev pub without : List (Bytes × V) → Bytes → List (Bytes × V)
  without [] k = []
  without ((j, v) ∷ t) k = let rest = without t k in if bytes_eq j k then rest else (j, v) ∷ rest

  pub find-add_new :
      (t : List (Bytes × V)) (v : V) (k : Bytes) (o : Option V)
      → (add_new t v k o).0 ≡ inserted
      → find (add_new t v k o).1 k ≡ some v
  find-add_new t v k none h = rw (bytes_eq_refl k)
  find-add_new t v k (some w) h = cc

  pub find-add_new_ne :
      (t : List (Bytes × V)) (v : V) (k j : Bytes) (o : Option V)
      → k ≢ j
      → find (add_new t v k o).1 j ≡ find t j
  find-add_new_ne t v k j none h = rw (bytes_eq_ne k j h)
  find-add_new_ne t v k j (some w) h = refl

  pub oldest_first-add_new :
      (t : List (Bytes × V)) (v : V) (k : Bytes) (o : Option V)
      → (add_new t v k o).0 ≡ inserted
      → oldest_first (add_new t v k o).1 ≡ oldest_first t ++ ((k, v) ∷ [])
  oldest_first-add_new t v k none h = refl
  oldest_first-add_new t v k (some w) h = cc

pub add_new-refused :
    {V : Type 0} (t : List (Bytes × V)) (v : V) (k : Bytes) (o : Option V)
    → (add_new t v k o).0 ≢ inserted
    → (add_new t v k o).1 ≡ t
add_new-refused t v k none h = absurd (h refl)
add_new-refused t v k (some w) h = refl

pub find-without : {V : Type 0} (t : List (Bytes × V)) (k : Bytes) → find (without t k) k ≡ none
find-without [] k = refl
find-without ((j, v) ∷ t) k = ground (arith, find-without t k)

pub find-without_ne :
    {V : Type 0} (t : List (Bytes × V)) (k j : Bytes) → k ≢ j → find (without t k) j ≡ find t j
find-without_ne [] k j ne = refl
find-without_ne ((i, v) ∷ t) k j ne = elim (Bool-cases (bytes_eq i k)) [
  | inl same ↦
      rw (same, bytes_eq_ne i j (λ e. ne (sym (eq_of_bytes_eq i k same) ∙ e)))
        (find-without_ne t k j ne)
  | inr other ↦ rw (other, find-without_ne t k j ne) refl
]

abbrev pub ght : Ght
ght = record {
  Table = λ V. List (Bytes × V);
  ght_create = λ V n. [];
  ght_size = λ {V} t. size t;
  ght_insert = λ {V} t v k. add_new t v k (find t k);
  ght_get = λ {V} t k. find t k;
  ght_remove = λ {V} t k. (find t k, without t k);
  entries = λ {V} t. oldest_first t;
  get-create = λ {V} n k. refl;
  entries-create = λ {V} n. refl;
  insert-exists = λ {V} t v w k h. ap (add_new t v k) h;
  insert-refused = λ {V} t v k h. add_new-refused t v k (find t k) h;
  get-insert_self = λ {V} t v k h. find-add_new t v k (find t k) h;
  get-insert_ne = λ {V} t v k j h. find-add_new_ne t v k j (find t k) h;
  get-remove_self = λ {V} t k. find-without t k;
  get-remove_ne = λ {V} t k j h. find-without_ne t k j h;
  entries-insert = λ {V} t v k h. oldest_first-add_new t v k (find t k) h;
}
