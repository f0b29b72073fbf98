-- ===== src/ObjectId/Hex.antt =====
-- The digits of a number, and the number of some digits.
use mini_pubsub_broker.Base.{
  ℕ, zero, suc, ◌+◌, ◌-◌, ◌*◌, ◌/◌, ◌%◌, ◌≡◌, ◌≤◌, ◌<◌, refl, ◌∙◌, [], ◌∷◌, ◌++◌, Bytes, length,
  length-append, ltb, if◌then◌else◌, arith,
}
use mini_pubsub_broker.ObjectId.{hex_digit, hex_text}

abbrev digit_value : ℕ → ℕ
digit_value b = if ltb b b'a' then b - b'0' else (b - b'a') + 10

abbrev value_behind : ℕ → Bytes → ℕ
value_behind n [] = n
value_behind n (b ∷ s) = value_behind (16 * n + digit_value b) s

-- The number that hexadecimal digits stand for.
abbrev pub hex_value : Bytes → ℕ
hex_value s = value_behind 0 s

-- `16 ^ w`.
abbrev pub sixteen_to : ℕ → ℕ
sixteen_to zero = 1
sixteen_to (suc w) = 16 * sixteen_to w

value_behind-append :
    (n : ℕ) (s : Bytes) (b : ℕ)
    → value_behind n (s ++ (b ∷ [])) ≡ 16 * value_behind n s + digit_value b
value_behind-append n [] b = refl
value_behind-append n (c ∷ s) b = value_behind-append (16 * n + digit_value c) s b

digit_value-hex_digit : (d : ℕ) → d < 16 → digit_value (hex_digit d) ≡ d
digit_value-hex_digit d h = ground arith

pub length-hex_text : (fuel w n : ℕ) → w ≤ fuel → n < sixteen_to w → length (hex_text fuel w n) ≡ w
unfolding hex_text
length-hex_text zero zero n le h = refl
length-hex_text zero (suc w) n le h = absurd (omega arith)
length-hex_text (suc fuel) zero n le h = ground arith
length-hex_text (suc fuel) (suc w) n le h =
    length-append (hex_text fuel w (n / 16)) (hex_digit (n % 16) ∷ [])
    ∙ omega (arith, length-hex_text fuel w (n / 16) (omega arith) (omega arith))

pub hex_value-hex_text :
    (fuel w n : ℕ) → w ≤ fuel → n < sixteen_to w → hex_value (hex_text fuel w n) ≡ n
unfolding hex_text
hex_value-hex_text zero zero n le h = omega arith
hex_value-hex_text zero (suc w) n le h = absurd (omega arith)
hex_value-hex_text (suc fuel) zero n le h = ground arith
hex_value-hex_text (suc fuel) (suc w) n le h =
    value_behind-append 0 (hex_text fuel w (n / 16)) (hex_digit (n % 16))
    ∙ omega (
      arith,
      hex_value-hex_text fuel w (n / 16) (omega arith) (omega arith),
      digit_value-hex_digit (n % 16) (omega arith),
    )
