-- ===== src/Datrie.antt =====
-- The calls of libdatrie and of iconv. The laws are what the documentation of libdatrie says of a
-- walk through a trie: where a walk has come, a key ends exactly if the state is terminal, and no
-- key goes on by a character that cannot be walked.
use mini_pubsub_broker.Base.{
  ℕ, ◌≡◌, ◌≢◌, Bool, true, false, ◌&&◌, ◌||◌, leb, Option, none, some, List, [], ◌∷◌, ◌++◌, Bytes,
}

pub record Datrie : Type 1 where
  pub AlphaMap : Type 0
  pub Trie : Type 0
  pub State : Type 0
  -- `none` is NULL, or a result other than 0.
  pub alpha_map_new : Option AlphaMap
  pub alpha_map_add_range : AlphaMap → ℕ → ℕ → Option AlphaMap
  pub trie_new : AlphaMap → Option Trie
  -- The characters of a map, and those that the keys of a trie may have.
  pub in_map : AlphaMap → ℕ → Bool
  pub in_alphabet : Trie → ℕ → Bool
  -- Whether a key is there; the data is not used.
  pub trie_retrieve : Trie → List ℕ → Bool
  -- The trie with a key, or `none` where it cannot be stored.
  pub trie_store : Trie → List ℕ → Option Trie
  pub trie_root : Trie → State
  pub trie_state_is_walkable : State → ℕ → Bool
  pub trie_state_walk : State → ℕ → State
  pub trie_state_is_terminal : State → Bool
  -- A state that a walk by some characters from the root has come to.
  pub Walked : Trie → List ℕ → State → Type 0
  pub walked-root : (t : Trie) → Walked t [] (trie_root t)
  pub walked-walk :
      (t : Trie) (w : List ℕ) (s : State) (a : ℕ)
      → Walked t w s
      → trie_state_is_walkable s a ≡ true
      → Walked t (w ++ (a ∷ [])) (trie_state_walk s a)
  pub terminal-retrieve :
      (t : Trie) (w : List ℕ) (s : State)
      → Walked t w s
      → trie_state_is_terminal s ≡ trie_retrieve t w
  pub retrieve-store :
      (t t' : Trie) (k : List ℕ) → trie_store t k ≡ some t' → trie_retrieve t' k ≡ true
  pub retrieve-store_ne :
      (t t' : Trie) (k j : List ℕ)
      → trie_store t k ≡ some t'
      → k ≢ j
      → trie_retrieve t' j ≡ trie_retrieve t j
  pub retrieve-new :
      (m : AlphaMap) (t : Trie) (k : List ℕ) → trie_new m ≡ some t → trie_retrieve t k ≡ false
  pub retrieve-not_walkable :
      (t : Trie) (w : List ℕ) (s : State) (a : ℕ) (r : List ℕ)
      → Walked t w s
      → trie_state_is_walkable s a ≡ false
      → trie_retrieve t (w ++ (a ∷ r)) ≡ false
  pub in_map-new : (m : AlphaMap) (a : ℕ) → alpha_map_new ≡ some m → in_map m a ≡ false
  pub in_map-add_range :
      (m m' : AlphaMap) (lo hi a : ℕ)
      → alpha_map_add_range m lo hi ≡ some m'
      → in_map m' a ≡ (in_map m a || (leb lo a && leb a hi))
  pub in_alphabet-new :
      (m : AlphaMap) (t : Trie) (a : ℕ) → trie_new m ≡ some t → in_alphabet t a ≡ in_map m a
  pub in_alphabet-store :
      (t t' : Trie) (k : List ℕ) (a : ℕ)
      → trie_store t k ≡ some t'
      → in_alphabet t' a ≡ in_alphabet t a
  -- A key with a character outside the alphabet is not there, and cannot be stored.
  pub retrieve-foreign :
      (t : Trie) (w : List ℕ) (a : ℕ) (r : List ℕ)
      → in_alphabet t a ≡ false
      → trie_retrieve t (w ++ (a ∷ r)) ≡ false
  pub store-foreign :
      (t : Trie) (w : List ℕ) (a : ℕ) (r : List ℕ)
      → in_alphabet t a ≡ false
      → trie_store t (w ++ (a ∷ r)) ≡ none

-- The bytes that `iconv` writes for a text within a number of bytes, in UCS-4LE.
abbrev pub Iconv : Type 0
Iconv = Bytes → ℕ → Bytes
