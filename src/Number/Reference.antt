-- ===== src/Number/Reference.antt =====
-- An unbounded reading of decimal texts, and `string2ll` against it.
use mini_pubsub_broker.Base.{
  ℕ, suc, ◌+◌, ◌-◌, ◌*◌, ◌^◌, ◌≤◌, ◌<◌, ◌≡◌, refl, Bool, true, false, ◌&&◌, Option, none, some, [],
  ◌∷◌, Bytes, length, ltb, leb, ◌==◌, if◌then◌else◌, ℤ, pos, negsuc, arith,
}
use mini_pubsub_broker.Number.{is_digit, llong_max, digits_loop, finish_ll, first_digit, string2ll}

-- The value of a run of digits behind a prefix of value `v`, with no bound.
unfoldable pub horner : ℕ → Bytes → ℕ
horner v [] = v
horner v (c ∷ s) = horner (v * 10 + (c - b'0')) s

unfoldable pub all_digits : Bytes → Bool
unfolding is_digit
all_digits [] = true
all_digits (c ∷ s) = is_digit c && all_digits s

-- A decimal number with no sign: digits, and no leading zero.
unfoldable pub magnitude : Bytes → Option ℕ
unfolding all_digits horner
magnitude [] = none
magnitude (c ∷ s) =
    if leb b'1' c && leb c b'9' && all_digits s then some (horner (c - b'0') s) else none

-- A magnitude with its sign. No magnitude is 0.
abbrev pub signed : Bool → Option ℕ → Option ℤ
signed negative none = none
signed true (some v) = some (negsuc (v - 1))
signed false (some v) = some (pos v)

-- The integer that a text stands for: `0`, a magnitude, or a magnitude behind `-`.
unfoldable pub decimal : Bytes → Option ℤ
unfolding magnitude
decimal [] = none
decimal (c ∷ s) =
    if c == b'-'
    then signed true (magnitude s)
    else if c == b'0' && length s == 0
    then some (pos 0)
    else signed false (magnitude (c ∷ s))

-- -2 ^ 63 ≤ z < 2 ^ 63.
abbrev pub fits_llong : ℤ → Bool
fits_llong (pos v) = leb v llong_max
fits_llong (negsuc v) = leb v llong_max

abbrev pub keep_llong : Option ℤ → Option ℤ
keep_llong none = none
keep_llong (some z) = if fits_llong z then some z else none

horner-le : (v : ℕ) (s : Bytes) → v ≤ horner v s
unfolding horner
horner-le v [] = omega arith
horner-le v (c ∷ s) = omega (arith, horner-le (v * 10 + (c - b'0')) s)

-- The loop in the range of `unsigned long long`, as an unbounded reading with a test at its end.
abbrev keep_digits : Bool → ℕ → Option (ℕ × Bytes)
keep_digits true v = if ltb v (2 ^ 64) then some (v, []) else none
keep_digits false v = none

abbrev whole : Option (ℕ × Bytes) → Option (ℕ × Bytes)
whole none = none
whole (some (v, [])) = some (v, [])
whole (some (v, c ∷ s)) = none

whole-digits_loop :
    (v : ℕ) (s : Bytes)
    → v < 2 ^ 64
    → whole (digits_loop v s) ≡ keep_digits (all_digits s) (horner v s)
unfolding digits_loop all_digits horner
whole-digits_loop v [] h = ground arith
whole-digits_loop v (c ∷ s) h =
    ground (arith, whole-digits_loop (v * 10 + (c - b'0')) s, horner-le (v * 10 + (c - b'0')) s)

finish_ll-whole : (b : Bool) (r : Option (ℕ × Bytes)) → finish_ll b r ≡ finish_ll b (whole r)
unfolding finish_ll
finish_ll-whole b none = refl
finish_ll-whole b (some (v, [])) = refl
finish_ll-whole b (some (v, c ∷ s)) = refl

first_digit-magnitude :
    (negative : Bool) (slen c : ℕ) (s : Bytes)
    → (c == b'0' && slen == 1) ≡ false
    → first_digit negative slen (c ∷ s) ≡ keep_llong (signed negative (magnitude (c ∷ s)))
unfolding first_digit magnitude finish_ll
first_digit-magnitude true slen c s h = ground (
  arith,
  finish_ll-whole true (digits_loop (c - b'0') s),
  whole-digits_loop (c - b'0') s,
  horner-le (c - b'0') s,
)
first_digit-magnitude false slen c s h =
    ground (arith, finish_ll-whole false (digits_loop (c - b'0') s), whole-digits_loop (c - b'0') s)

-- `string2ll` accepts exactly the decimal texts of the integers in the range of `long long`, and
-- yields the integer: it is the unbounded reading followed by the range test.
pub string2ll-decimal : (s : Bytes) → string2ll s ≡ keep_llong (decimal s)
unfolding string2ll decimal
string2ll-decimal [] = refl
string2ll-decimal (c ∷ []) = ground (arith, first_digit-magnitude false 1 c [])
string2ll-decimal (c ∷ d ∷ s) = ground (
  arith,
  first_digit-magnitude true (suc (suc (length s))) d s,
  first_digit-magnitude false (suc (suc (length s))) c (d ∷ s),
)
