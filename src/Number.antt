-- ===== src/Number.antt =====
-- `string2ll` of src/util.c: a decimal text into a `long long`.
pub mod Reference
pub mod Print
mod Tests
use mini_pubsub_broker.Base.{
  ℕ, suc, ◌+◌, ◌-◌, ◌*◌, ◌/◌, ◌%◌, ◌^◌, Bool, true, false, ◌&&◌, Option, none, some, [], ◌∷◌, Bytes,
  length, ltb, leb, ◌==◌, if◌then◌else◌, ℤ, pos, negsuc,
}

-- `ULLONG_MAX` and `LLONG_MAX`.
abbrev pub ullong_max : ℕ
ullong_max = 2 ^ 64 - 1

abbrev pub llong_max : ℕ
llong_max = 2 ^ 63 - 1

unfoldable pub is_digit : ℕ → Bool
is_digit c = leb b'0' c && leb c b'9'

-- An `unsigned long long` stored in a `long long`: two's complement.
abbrev pub to_llong : ℕ → ℤ
to_llong v = if leb v llong_max then pos v else negsuc (2 ^ 64 - v - 1)

-- `-v` on an `unsigned long long`.
abbrev pub neg_ullong : ℕ → ℕ
neg_ullong v = (2 ^ 64 - v) % 2 ^ 64

-- The `while` loop over the digits behind the first: the value and the bytes that are left, or
-- `none` at an overflow.
pub digits_loop : ℕ → Bytes → Option (ℕ × Bytes)
unfolding is_digit
digits_loop v [] = some (v, [])
digits_loop v (c ∷ s) =
    let next = digits_loop ((v * 10 % 2 ^ 64 + (c - b'0')) % 2 ^ 64) s in
    if is_digit c
    then (if ltb (ullong_max / 10) v
        then none
        else if ltb (ullong_max - (c - b'0')) (v * 10 % 2 ^ 64)
        then none
        else next)
    else some (v, c ∷ s)

-- What follows the loop: bytes that are left, and the range of a `long long`.
pub finish_ll : Bool → Option (ℕ × Bytes) → Option ℤ
finish_ll negative none = none
finish_ll negative (some (v, c ∷ s)) = none
finish_ll true (some (v, [])) =
    if ltb (llong_max + 1) v then none else some (to_llong (neg_ullong v))
finish_ll false (some (v, [])) = if ltb llong_max v then none else some (to_llong v)

-- From the first digit on; `slen` is the length of the whole text.
pub first_digit : Bool → ℕ → Bytes → Option ℤ
unfolding digits_loop finish_ll
first_digit negative slen [] = none
first_digit negative slen (c ∷ s) =
    if leb b'1' c && leb c b'9'
    then finish_ll negative (digits_loop (c - b'0') s)
    else if c == b'0' && slen == 1
    then some (pos 0)
    else none

-- The text is the `slen` bytes at `s`; `none` is the result 0.
pub string2ll : Bytes → Option ℤ
unfolding first_digit
string2ll [] = none
string2ll (c ∷ s) =
    if length (c ∷ s) == 1 && c == b'0'
    then some (pos 0)
    else if c == b'-'
    then first_digit true (length (c ∷ s)) s
    else first_digit false (length (c ∷ s)) (c ∷ s)
