-- ===== src/TrieUtil/Walk.antt =====
-- The walk to the next key, against the keys of the trie, other than the empty one, that a text begins
-- with.
use mini_pubsub_broker.Base.{
  ℕ, ◌+◌, ◌≡◌, ◌≢◌, ◌<◌, refl, ap, ◌∙◌, sym, Bool, true, false, Option, none, some, List, [], ◌∷◌,
  ◌++◌, append_assoc, map, length, length-append, if◌then◌else◌, arith, Bool-cases, inl, inr,
}
use mathlib.Core.Path.{subst, ap₂}
use mini_pubsub_broker.Datrie.{Datrie}
use mini_pubsub_broker.Client.{Run, ok}
use mini_pubsub_broker.TrieUtil.{walk_loop}

-- The words of at least one character that a text begins with, the shortest first.
unfoldable pub beginnings : List ℕ → List (List ℕ)
beginnings [] = []
beginnings (a ∷ rest) = (a ∷ []) ∷ map (λ word. a ∷ word) (beginnings rest)

unfoldable pub filter {ℓ} : {A : Type ℓ} → (A → Bool) → List A → List A
filter has [] = []
filter has (x ∷ xs) = let more = filter has xs in if has x then x ∷ more else more

-- The keys among the words that begin with a front part and go on, by at least one character, with the
-- beginning of a text; the shortest first.
unfoldable pub matching : (List ℕ → Bool) → List ℕ → List ℕ → List (List ℕ)
matching has front [] = []
matching has front (a ∷ rest) =
    let more = matching has (front ++ (a ∷ [])) rest in
    if has (front ++ (a ∷ [])) then (front ++ (a ∷ [])) ∷ more else more

map-append :
    (front : List ℕ) (a : ℕ) (words : List (List ℕ))
    → map (λ word. front ++ word) (map (λ word. a ∷ word) words)
      ≡ map (λ word. (front ++ (a ∷ [])) ++ word) words
map-append front a [] = refl
map-append front a (w ∷ words) =
    ap₂ (λ (x : List ℕ) (l : List (List ℕ)). x ∷ l) (sym (append_assoc front (a ∷ []) w))
      (map-append front a words)

filter-matching :
    (has : List ℕ → Bool) (front rest : List ℕ)
    → filter has (map (λ word. front ++ word) (beginnings rest)) ≡ matching has front rest
unfolding filter beginnings matching
filter-matching has front [] = refl
filter-matching has front (a ∷ rest) =
    rw (map-append front a (beginnings rest), filter-matching has (front ++ (a ∷ [])) rest) refl

map-nil : (words : List (List ℕ)) → map (λ (word : List ℕ). [] ++ word) words ≡ words
map-nil [] = refl
map-nil (w ∷ words) = ap (λ l. w ∷ l) (map-nil words)

pub filter-beginnings :
    (has : List ℕ → Bool) (text : List ℕ) → filter has (beginnings text) ≡ matching has [] text
filter-beginnings has text =
    ap (filter has) (sym (map-nil (beginnings text))) ∙ filter-matching has [] text

pub matching-nil :
    (has : List ℕ → Bool) (front rest : List ℕ)
    → ((a : ℕ) (r : List ℕ) → has (front ++ (a ∷ r)) ≡ false)
    → matching has front rest ≡ []
unfolding matching
matching-nil has front [] h = refl
matching-nil has front (a ∷ rest) h = rw (h a []) (
    matching-nil has (front ++ (a ∷ [])) rest
      λ b r. ap has (append_assoc front (a ∷ []) (b ∷ r)) ∙ h a (b ∷ r))

matching-nil-nil : (has : List ℕ → Bool) (front : List ℕ) → matching has front [] ≡ []
unfolding matching
matching-nil-nil has front = refl

matching-hit :
    (has : List ℕ → Bool) (front rest : List ℕ) (a : ℕ)
    → has (front ++ (a ∷ [])) ≡ true
    → matching has front (a ∷ rest) ≡ (front ++ (a ∷ [])) ∷ matching has (front ++ (a ∷ [])) rest
unfolding matching
matching-hit has front rest a h = rw h

matching-skip :
    (has : List ℕ → Bool) (front rest : List ℕ) (a : ℕ)
    → has (front ++ (a ∷ [])) ≡ false
    → matching has front (a ∷ rest) ≡ matching has (front ++ (a ∷ [])) rest
unfolding matching
matching-skip has front rest a h = rw h

-- Two tests that agree on every longer word.
matching-same :
    (has has' : List ℕ → Bool) (front rest : List ℕ)
    → ((k : List ℕ) → length front < length k → has' k ≡ has k)
    → matching has' front rest ≡ matching has front rest
unfolding matching
matching-same has has' front [] same = refl
matching-same has has' front (a ∷ rest) same =
    let longer : length front < length (front ++ (a ∷ [])) =
      omega (arith, length-append front (a ∷ [])) in
    rw
      (
        same (front ++ (a ∷ [])) longer,
        matching-same has has' (front ++ (a ∷ [])) rest
            (λ k h. same k (omega (arith, length-append front (a ∷ [])))),
      )
      refl

matching-none :
    (has : List ℕ → Bool) (front rest : List ℕ) (a : ℕ)
    → matching has front (a ∷ rest) ≡ []
    → (has (front ++ (a ∷ [])) ≡ false) × (matching has (front ++ (a ∷ [])) rest ≡ [])
matching-none has front rest a h = elim (Bool-cases (has (front ++ (a ∷ [])))) [
  | inl hit ↦ absurd (omega (arith, ap (length {0}) (sym (matching-hit has front rest a hit) ∙ h)))
  | inr skip ↦ (skip, sym (matching-skip has front rest a skip) ∙ h)
]

ne_of_length : (xs ys : List ℕ) → length xs < length ys → xs ≢ ys
ne_of_length xs ys h e = omega (arith, ap (length {0}) e)

-- A new key is the only one that a text begins with, where the text begins with no other.
pub matching-new :
    (has has' : List ℕ → Bool) (k front part rest : List ℕ)
    → k ≡ front ++ part
    → 0 < length part
    → has' k ≡ true
    → ((j : List ℕ) → k ≢ j → has' j ≡ has j)
    → matching has front (part ++ rest) ≡ []
    → matching has' front (part ++ rest) ≡ k ∷ []
matching-new has has' k front [] rest ek some_part new same h = absurd (omega arith)
matching-new has has' k front (a ∷ []) rest ek some_part new same h =
    matching-hit has' front rest a (ap has' (sym ek) ∙ new)
    ∙ ap₂ (λ (x : List ℕ) (l : List (List ℕ)). x ∷ l) (sym ek)
        (matching-same has has' (front ++ (a ∷ [])) rest
            (λ j longer. same j (ne_of_length k j (omega (arith, ap (length {0}) ek))))
          ∙ (matching-none has front rest a h).1)
matching-new has has' k front (a ∷ b ∷ part) rest ek some_part new same h =
    let front' = front ++ (a ∷ []) in
    let (absent, none_more) = matching-none has front (b ∷ (part ++ rest)) a h in
    let longer : length front' < length k = omega (
      arith,
      ap (length {0}) ek,
      length-append front (a ∷ b ∷ part),
      length-append front (a ∷ []),
    ) in
    matching-skip has' front (b ∷ (part ++ rest)) a
      (same front' (λ e. ne_of_length front' k longer (sym e)) ∙ absent)
    ∙ matching-new has has' k front' (b ∷ part) rest
        (ek ∙ sym (append_assoc front (a ∷ []) (b ∷ part))) (omega arith) new same none_more

module _ (dt : Datrie) (t : dt.Trie) where
  open dt use {State, Walked, trie_retrieve}

  -- How a walk from behind `front` through `rest` ends: no key is met, or the next key is, at index
  -- `cur`, in front of `after`.
  pub data WalkEnd (front rest : List ℕ) (i : ℕ) : Run (Option ℕ × State) → Type 0 where
    no_key :
        (s : State)
        → matching (trie_retrieve t) front rest ≡ []
        → WalkEnd front rest i (ok (none, s))
    key :
        (cur : ℕ) (s : State) (part after : List ℕ)
        → rest ≡ part ++ after
        → cur + 1 ≡ i + length part
        → length after < length rest
        → Walked t (front ++ part) s
        → matching (trie_retrieve t) front rest
          ≡ (front ++ part) ∷ matching (trie_retrieve t) (front ++ part) after
        → WalkEnd front rest i (ok (some cur, s))

  WalkEnd-cons :
      (front rest : List ℕ) (a i j : ℕ) (r : Run (Option ℕ × State))
      → trie_retrieve t (front ++ (a ∷ [])) ≡ false
      → j ≡ i + 1
      → WalkEnd (front ++ (a ∷ [])) rest j r
      → WalkEnd front (a ∷ rest) i r
  WalkEnd-cons front rest a i j r h ej (no_key s e) =
      no_key s (matching-skip (trie_retrieve t) front rest a h ∙ e)
  WalkEnd-cons front rest a i j r h ej (key cur s part after er ei el w e) =
      let assoc = append_assoc front (a ∷ []) part in
      key cur s (a ∷ part) after (ap (λ x. a ∷ x) er) (omega arith) (omega arith)
        (subst (λ x. Walked t x s) assoc w)
        (matching-skip (trie_retrieve t) front rest a h
          ∙ e
          ∙ ap (λ x. x ∷ matching (trie_retrieve t) x after) assoc)

  walk_loop-stuck :
      (front rest : List ℕ) (s : State) (a : ℕ)
      → Walked t front s
      → dt.trie_state_is_walkable s a ≡ false
      → matching (trie_retrieve t) front (a ∷ rest) ≡ []
  walk_loop-stuck front rest s a w stop =
      matching-skip (trie_retrieve t) front rest a (dt.retrieve-not_walkable t front s a [] w stop)
      ∙ matching-nil (trie_retrieve t) (front ++ (a ∷ [])) rest λ b r.
        ap (trie_retrieve t) (append_assoc front (a ∷ []) (b ∷ r))
        ∙ dt.retrieve-not_walkable t front s a (b ∷ r) w stop

  -- A walk from behind `front` through `rest` meets the next key that the text begins with, if
  -- there is one.
  pub walk_loop-WalkEnd :
      (front rest tail : List ℕ) (s : State) (i : ℕ)
      → Walked t front s
      → WalkEnd front rest i (walk_loop dt (length rest) s (rest ++ tail) i)
  unfolding walk_loop
  walk_loop-WalkEnd front [] tail s i w = no_key s (matching-nil-nil (trie_retrieve t) front)
  walk_loop-WalkEnd front (a ∷ rest) tail s i w =
      let s' = dt.trie_state_walk s a in
      let front' = front ++ (a ∷ []) in
      elim (Bool-cases (dt.trie_state_is_walkable s a)) [
        | inl go ↦
            let w' = dt.walked-walk t front s a w go in
            let same = dt.terminal-retrieve t front' s' w' in
            rw go (elim (Bool-cases (dt.trie_state_is_terminal s')) [
              | inl end ↦ rw end (
                  key i s' (a ∷ []) rest refl refl (omega arith) w'
                    (matching-hit (trie_retrieve t) front rest a (sym same ∙ end)))
              | inr more ↦ rw more (
                  WalkEnd-cons front rest a i (i + 1) _ (sym same ∙ more) refl
                    (walk_loop-WalkEnd front' rest tail s' (i + 1) w'))
            ])
        | inr stop ↦ rw stop (no_key s (walk_loop-stuck front rest s a w stop))
      ]
