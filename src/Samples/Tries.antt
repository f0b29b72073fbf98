-- ===== src/Samples/Tries.antt =====
-- Tries as lists of keys.
use mini_pubsub_broker.Base.{
  ℕ, ◌≡◌, ◌≢◌, refl, ap, ◌∙◌, sym, Bool, true, false, not, ◌&&◌, ◌||◌, Option, none, some, List, [],
  ◌∷◌, ◌++◌, append-nil, append_assoc, ◌==◌, if◌then◌else◌, arith, Bool-cases, inl, inr, leb,
}
use mathlib.Core.Path.{subst}
use mini_pubsub_broker.Datrie.{Datrie}
use mini_pubsub_broker.Samples.Keys.{bytes_eq, bytes_eq_refl, eq_of_bytes_eq, bytes_eq_ne}

-- The keys behind a first character, without it.
abbrev pub rests : List (List ℕ) → ℕ → List (List ℕ)
rests [] a = []
rests ([] ∷ ks) a = rests ks a
rests ((b ∷ k) ∷ ks) a = if b == a then k ∷ rests ks a else rests ks a

abbrev pub has_key : List (List ℕ) → List ℕ → Bool
has_key [] k = false
has_key (j ∷ ks) k = bytes_eq j k || has_key ks k

abbrev pub is_empty : List (List ℕ) → Bool
is_empty [] = true
is_empty (k ∷ ks) = false

has_key-rests :
    (ks : List (List ℕ)) (a : ℕ) (k : List ℕ) → has_key (rests ks a) k ≡ has_key ks (a ∷ k)
has_key-rests [] a k = refl
has_key-rests ([] ∷ ks) a k = has_key-rests ks a k
has_key-rests ((b ∷ j) ∷ ks) a k = ground (arith, has_key-rests ks a k)

has_key-empty : (ks : List (List ℕ)) (k : List ℕ) → is_empty ks ≡ true → has_key ks k ≡ false
has_key-empty [] k h = refl
has_key-empty (j ∷ ks) k h = cc

-- What is left of the keys of `t` behind `w`.
abbrev pub IsRest : List (List ℕ) → List ℕ → List (List ℕ) → Type 0
IsRest t w s = (k : List ℕ) → has_key s k ≡ has_key t (w ++ k)

pub IsRest-rests :
    (t : List (List ℕ)) (w : List ℕ) (s : List (List ℕ)) (a : ℕ)
    → IsRest t w s
    → IsRest t (w ++ (a ∷ [])) (rests s a)
IsRest-rests t w s a h k =
    has_key-rests s a k ∙ h (a ∷ k) ∙ ap (has_key t) (sym (append_assoc w (a ∷ []) k))

pub has_key-terminal :
    (t : List (List ℕ)) (w : List ℕ) (s : List (List ℕ)) → IsRest t w s → has_key s [] ≡ has_key t w
has_key-terminal t w s h = h [] ∙ ap (has_key t) (append-nil w)

pub has_key-not_walkable :
    (t : List (List ℕ)) (w : List ℕ) (s : List (List ℕ)) (a : ℕ) (r : List ℕ)
    → IsRest t w s
    → not (is_empty (rests s a)) ≡ false
    → has_key t (w ++ (a ∷ r)) ≡ false
has_key-not_walkable t w s a r h e =
    sym (h (a ∷ r)) ∙ sym (has_key-rests s a r) ∙ has_key-empty (rests s a) r (ground arith)

-- The characters of a key lie in a set.
abbrev pub all_in : (ℕ → Bool) → List ℕ → Bool
all_in m [] = true
all_in m (a ∷ k) = m a && all_in m k

-- The keys of a set's characters.
abbrev pub keys_in : (ℕ → Bool) → List (List ℕ) → List (List ℕ)
keys_in m [] = []
keys_in m (k ∷ ks) = if all_in m k then k ∷ keys_in m ks else keys_in m ks

pub all_in-foreign :
    (m : ℕ → Bool) (w : List ℕ) (a : ℕ) (r : List ℕ) → m a ≡ false → all_in m (w ++ (a ∷ r)) ≡ false
all_in-foreign m [] a r h = rw h
all_in-foreign m (b ∷ w) a r h = ground (arith, all_in-foreign m w a r)

-- A key that is equal to another has its characters.
all_in_of_bytes_eq : (m : ℕ → Bool) (j k : List ℕ) → bytes_eq j k ≡ true → all_in m j ≡ all_in m k
all_in_of_bytes_eq m j k h = ap (all_in m) (eq_of_bytes_eq j k h)

pub has_key-keys_in :
    (m : ℕ → Bool) (ks : List (List ℕ)) (k : List ℕ)
    → all_in m k ≡ false
    → has_key (keys_in m ks) k ≡ false
has_key-keys_in m [] k h = refl
has_key-keys_in m (j ∷ ks) k h = elim (Bool-cases (bytes_eq j k)) [
  | inl same ↦ rw (all_in_of_bytes_eq m j k same ∙ h) (has_key-keys_in m ks k h)
  | inr other ↦ ground (arith, has_key-keys_in m ks k)
]

-- A set of characters, and keys, of which those over the set count.
abbrev pub SampleTrie : Type 0
SampleTrie = (ℕ → Bool) × List (List ℕ)

abbrev pub keys : SampleTrie → List (List ℕ)
keys t = keys_in t.0 t.1

abbrev pub store : SampleTrie → List ℕ → Option SampleTrie
store t k = if all_in t.0 k then some (t.0, k ∷ t.1) else none

pub has_key-store :
    (t t' : SampleTrie) (k : List ℕ) → store t k ≡ some t' → has_key (keys t') k ≡ true
has_key-store t t' k h = elim (Bool-cases (all_in t.0 k)) [
  | inl fits ↦
      let e : ◌≡◌ {A = SampleTrie} (t.0, k ∷ t.1) t' = ground arith in
      subst (λ u. has_key (keys u) k ≡ true) e (rw (fits, bytes_eq_refl k))
  | inr foreign ↦ ground arith
]

has_key_cons_ne :
    (m : ℕ → Bool) (ks : List (List ℕ)) (k j : List ℕ)
    → k ≢ j
    → has_key (keys_in m (k ∷ ks)) j ≡ has_key (keys_in m ks) j
has_key_cons_ne m ks k j ne = elim (Bool-cases (all_in m k)) [
  | inl fits ↦ rw (fits, bytes_eq_ne k j ne) refl
  | inr foreign ↦ rw foreign refl
]

pub has_key-store_ne :
    (t t' : SampleTrie) (k j : List ℕ)
    → store t k ≡ some t'
    → k ≢ j
    → has_key (keys t') j ≡ has_key (keys t) j
has_key-store_ne t t' k j h ne = elim (Bool-cases (all_in t.0 k)) [
  | inl fits ↦
      let e : ◌≡◌ {A = SampleTrie} (t.0, k ∷ t.1) t' = ground arith in
      subst (λ u. has_key (keys u) j ≡ has_key (keys t) j) e (has_key_cons_ne t.0 t.1 k j ne)
  | inr foreign ↦ ground arith
]

pub store-alphabet : (t t' : SampleTrie) (k : List ℕ) (a : ℕ) → store t k ≡ some t' → t'.0 a ≡ t.0 a
store-alphabet t t' k a h = elim (Bool-cases (all_in t.0 k)) [
  | inl fits ↦
      let e : ◌≡◌ {A = SampleTrie} (t.0, k ∷ t.1) t' = ground arith in ap (λ u. u.0 a) (sym e)
  | inr foreign ↦ ground arith
]

abbrev some_or {ℓ} : {A : Type ℓ} → A → Option A → A
some_or a none = a
some_or a (some b) = b

-- Two results that are some value are the same value.
pub eq_of_some {ℓ} : {A : Type ℓ} (x y : A) → some x ≡ some y → x ≡ y
eq_of_some x y h = ap (some_or x) h

abbrev pub datrie : Datrie
datrie = record {
  AlphaMap = ℕ → Bool;
  Trie = SampleTrie;
  State = List (List ℕ);
  alpha_map_new = some (λ a. false);
  alpha_map_add_range = λ m lo hi. some (λ a. m a || (leb lo a && leb a hi));
  trie_new = λ m. some (m, []);
  in_map = λ m. m;
  in_alphabet = λ t. t.0;
  trie_retrieve = λ t. has_key (keys t);
  trie_store = store;
  trie_root = keys;
  trie_state_is_walkable = λ s a. not (is_empty (rests s a));
  trie_state_walk = rests;
  trie_state_is_terminal = λ s. has_key s [];
  Walked = λ t. IsRest (keys t);
  walked-root = λ t k. refl;
  walked-walk = λ t w s a h _. IsRest-rests (keys t) w s a h;
  terminal-retrieve = λ t. has_key-terminal (keys t);
  retrieve-store = has_key-store;
  retrieve-store_ne = has_key-store_ne;
  retrieve-new = λ m t k h. ap (λ (u : SampleTrie). has_key (keys u) k) (sym (eq_of_some _ t h));
  retrieve-not_walkable = λ t. has_key-not_walkable (keys t);
  in_map-new = λ m a h. ap (λ (f : ℕ → Bool). f a) (sym (eq_of_some _ m h));
  in_map-add_range = λ m m' lo hi a h. ap (λ (f : ℕ → Bool). f a) (sym (eq_of_some _ m' h));
  in_alphabet-new = λ m t a h. ap (λ (u : SampleTrie). u.0 a) (sym (eq_of_some _ t h));
  in_alphabet-store = store-alphabet;
  retrieve-foreign =
      λ t w a r h. has_key-keys_in t.0 t.1 (w ++ (a ∷ r)) (all_in-foreign t.0 w a r h);
  store-foreign = λ t w a r h. rw (all_in-foreign t.0 w a r h);
}
