-- ===== src/TrieUtil.antt =====
-- src/common/trie_util.c: the conversion to the characters of a trie, and the walk to the next key.
pub mod Walk
pub mod Alphabet
use mini_pubsub_broker.Base.{
  ℕ, zero, suc, ◌+◌, ◌-◌, ◌*◌, ◌^◌, Bool, true, false, Option, none, some, List, [], ◌∷◌, ◌++◌,
  Bytes, drop, length, ltb, if◌then◌else◌, codes,
}
use mini_pubsub_broker.Libc.{c_string}
use mini_pubsub_broker.Datrie.{Datrie, Iconv}
use mini_pubsub_broker.Client.{Run, ok, fault, ◌>>=◌}

-- Four bytes each, the lowest first, for at most `n` characters; then a 0 if there is room.
unfoldable pub assemble : ℕ → Bytes → List ℕ
assemble zero bytes = []
assemble (suc n) (b0 ∷ b1 ∷ b2 ∷ b3 ∷ bytes) =
    (b0 + 2 ^ 8 * b1 + 2 ^ 16 * b2 + 2 ^ 24 * b3) ∷ assemble n bytes
assemble (suc n) bytes = 0 ∷ []

-- What `out` holds; the result counts the characters in front of the 0.
unfoldable pub conv_to_alpha : Iconv → Bytes → ℕ → List ℕ
unfolding assemble
conv_to_alpha iconv text out_size = assemble out_size (iconv (c_string text) (out_size * 4))

module _ (dt : Datrie) where
  open dt use {State, trie_state_is_walkable, trie_state_walk, trie_state_is_terminal}

  -- The loop from index `i` with `n` rounds to go, over `alpha` from `i` on. A read behind what
  -- `alpha` holds is a fault.
  unfoldable pub walk_loop : ℕ → State → List ℕ → ℕ → Run (Option ℕ × State)
  walk_loop zero s alpha i = ok (none, s)
  walk_loop (suc n) s [] i = fault
  walk_loop (suc n) s (a ∷ alpha) i =
      let s' = trie_state_walk s a in
      let rest = walk_loop n s' alpha (i + 1) in
      if trie_state_is_walkable s a
      then (if trie_state_is_terminal s' then ok (some i, s') else rest)
      else ok (none, s)

  -- `none` is the result -1.
  unfoldable pub trie_walker : State → List ℕ → ℕ → ℕ → Run (Option ℕ × State)
  unfolding walk_loop
  trie_walker s alpha len cur = walk_loop (len - cur) s (drop cur alpha) cur

-- A step that fails on NULL, or on a result other than 0.
abbrev pub or_null {ℓ κ} : {A : Type ℓ} {B : Type κ} → Option A → (A → Option B) → Option B
or_null none f = none
or_null (some a) f = f a

module _ (dt : Datrie) where
  open dt use {AlphaMap, Trie, alpha_map_new, alpha_map_add_range, trie_new}

  unfoldable pub en_alpha_map_new : Option AlphaMap
  en_alpha_map_new =
      or_null alpha_map_new
        (λ m. or_null (alpha_map_add_range m 0x61 0x7a) (λ m'. alpha_map_add_range m' 0x41 0x5a))

  unfoldable pub trie_create : Option Trie
  unfolding en_alpha_map_new
  trie_create = or_null en_alpha_map_new trie_new

-- The locale calls of `init_conv`. `none` is NULL; a call of `setlocale` with NULL asks only.
pub record Locales : Type 1 where
  pub Conv : Type 0
  -- The locale that the environment names, if it can be set.
  pub environment : Option Bytes
  -- The codeset of the locale that is set.
  pub locale_charset : Bytes → Bytes
  pub iconv_open : Bytes → Bytes → Conv

abbrev pub setlocale : Option Bytes → Bytes → Bytes
setlocale none current = current
setlocale (some l) current = l

-- `ALPHA_ENC`.
abbrev pub alpha_enc : Bytes
alpha_enc = codes "UCS-4LE"

-- The converter, with the locale behind the call; what `setlocale` returned is set again.
unfoldable pub init_conv : (loc : Locales) → Bytes → loc.Conv × Bytes
init_conv loc current =
    let used = setlocale loc.environment current in
    (loc.iconv_open alpha_enc (loc.locale_charset used), setlocale loc.environment used)
