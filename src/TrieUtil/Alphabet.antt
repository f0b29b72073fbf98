-- ===== src/TrieUtil/Alphabet.antt =====
-- The alphabet of the trie that `trie_create` makes.
use mini_pubsub_broker.Base.{
  ℕ, ◌≡◌, refl, ap, ◌∙◌, Bool, false, ◌&&◌, ◌||◌, Option, none, some, leb, List,
}
use mini_pubsub_broker.Datrie.{Datrie}
use mini_pubsub_broker.TrieUtil.{or_null, en_alpha_map_new, trie_create}

abbrev pub is_letter : ℕ → Bool
is_letter a = (leb b'a' a && leb a b'z') || (leb b'A' a && leb a b'Z')

or_null-some {ℓ κ} :
    {A : Type ℓ} {B : Type κ} (o : Option A) (f : A → Option B) (b : B)
    → or_null o f ≡ some b
    → (a : A) × (o ≡ some a) × (f a ≡ some b)
or_null-some none f b h = cc
or_null-some (some a) f b h = (a, refl, h)

module _ (dt : Datrie) where
  -- The keys of a trie are words of letters.
  abbrev pub HasLetters : dt.Trie → Type 0
  HasLetters t = (a : ℕ) → dt.in_alphabet t a ≡ is_letter a

  pub trie_create-HasLetters : (t : dt.Trie) → trie_create dt ≡ some t → HasLetters t
  unfolding trie_create
  trie_create-HasLetters t h a =
      let (m, made, new) = or_null-some (en_alpha_map_new dt) dt.trie_new t h in
      let (m0, empty, rest) = or_null-some dt.alpha_map_new _ m made in
      let (m1, lower, upper) =
        or_null-some (dt.alpha_map_add_range m0 0x61 0x7a)
          (λ m'. dt.alpha_map_add_range m' 0x41 0x5a) m rest in
      dt.in_alphabet-new m t a new
      ∙ dt.in_map-add_range m1 m 0x41 0x5a a upper
      ∙ ap (λ b. b || (leb 0x41 a && leb a 0x5a))
          (dt.in_map-add_range m0 m1 0x61 0x7a a lower
            ∙ ap (λ b. b || (leb 0x61 a && leb a 0x7a)) (dt.in_map-new m0 a empty))

  -- A new trie holds no key.
  pub trie_create-no_key :
      (t : dt.Trie) (k : List ℕ) → trie_create dt ≡ some t → dt.trie_retrieve t k ≡ false
  unfolding trie_create
  trie_create-no_key t k h =
      let (m, made, new) = or_null-some (en_alpha_map_new dt) dt.trie_new t h in
      dt.retrieve-new m t k new

  pub trie_store-HasLetters :
      (t t' : dt.Trie) (k : List ℕ) → HasLetters t → dt.trie_store t k ≡ some t' → HasLetters t'
  trie_store-HasLetters t t' k letters h a = dt.in_alphabet-store t t' k a h ∙ letters a
