-- ===== src/Libc.antt =====
-- What src/protocol uses of the C library on strings, over the bytes in front of a terminating NUL.
use mini_pubsub_broker.Base.{
  ℕ, zero, suc, ◌+◌, ◌<◌, ◌≡◌, refl, ap, ◌∙◌, true, Option, none, some, [], ◌∷◌, ◌++◌, Bytes,
  length, take, drop, ◌==◌, if◌then◌else◌, arith, Bool-cases, inl, inr,
}
use mini_pubsub_broker.Number.{is_digit}
use mini_pubsub_broker.Number.Reference.{all_digits}

-- `\r` and `\n`.
abbrev pub cr : ℕ
cr = 13

abbrev pub lf : ℕ
lf = 10

abbrev pub index_suc : Option ℕ → Option ℕ
index_suc none = none
index_suc (some i) = some (suc i)

-- `strchr(s, c)` for `c` other than NUL: the offset of the first `c` in front of the first NUL.
unfoldable pub strchr : Bytes → ℕ → Option ℕ
strchr [] c = none
strchr (b ∷ s) c =
    let rest = index_suc (strchr s c) in if b == c then some 0 else if b == 0 then none else rest

-- What `strlen` counts: the bytes in front of the first NUL.
unfoldable pub c_string : Bytes → Bytes
c_string [] = []
c_string (b ∷ s) = let rest = b ∷ c_string s in if b == 0 then [] else rest

pub c_string-c_string : (s : Bytes) → c_string (c_string s) ≡ c_string s
unfolding c_string
c_string-c_string [] = refl
c_string-c_string (b ∷ s) = elim (Bool-cases (b == 0)) [
  | inl e ↦ rw e refl
  | inr e ↦ rw e (rw (e, c_string-c_string s) refl)
]

-- `s[i]`; the byte behind the last one is the terminating NUL.
unfoldable pub byte_at : Bytes → ℕ → ℕ
byte_at [] i = 0
byte_at (b ∷ s) zero = b
byte_at (b ∷ s) (suc i) = byte_at s i

-- The `n` bytes at `s + i`.
unfoldable pub slice : Bytes → ℕ → ℕ → Bytes
slice s i n = take n (drop i s)

pub strchr-digits :
    (ds r : Bytes) → all_digits ds ≡ true → strchr (ds ++ cr ∷ r) cr ≡ some (length ds)
unfolding strchr all_digits is_digit
strchr-digits [] r h = refl
strchr-digits (d ∷ ds) r h = ground (arith, strchr-digits ds r)

-- The offset that `strchr` finds lies in the string, and holds the byte.
pub strchr-lt-length : (s : Bytes) (c i : ℕ) → strchr s c ≡ some i → i < length s
unfolding strchr
strchr-lt-length [] c i h = ground arith
strchr-lt-length (b ∷ s) c zero h = omega arith
strchr-lt-length (b ∷ s) c (suc i) h = ground (arith, strchr-lt-length s c i)

pub byte_at-strchr : (s : Bytes) (c i : ℕ) → strchr s c ≡ some i → byte_at s i ≡ c
unfolding strchr byte_at
byte_at-strchr [] c i h = ground arith
byte_at-strchr (b ∷ s) c zero h = ground arith
byte_at-strchr (b ∷ s) c (suc i) h = ground (arith, byte_at-strchr s c i)

pub byte_at-drop : (p : ℕ) (s : Bytes) (i : ℕ) → byte_at (drop p s) i ≡ byte_at s (p + i)
unfolding byte_at
byte_at-drop zero s i = ap (byte_at s) (omega arith)
byte_at-drop (suc p) [] i = refl
byte_at-drop (suc p) (b ∷ s) i =
    byte_at-drop p s i ∙ ap (byte_at (b ∷ s)) {x = suc (p + i)} (omega arith)
