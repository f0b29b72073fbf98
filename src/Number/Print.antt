-- ===== src/Number/Print.antt =====
-- Decimal printing, as a client of the protocol writes a length, and its reading by `string2ll`.
use mini_pubsub_broker.Base.{
  ℕ, zero, suc, ◌+◌, ◌-◌, ◌*◌, ◌/◌, ◌%◌, ◌≤◌, ◌<◌, ◌≡◌, refl, true, some, [], ◌∷◌, ◌++◌, Bytes, ltb,
  if◌then◌else◌, pos, arith,
}
use mini_pubsub_broker.Number.{llong_max, string2ll}
use mini_pubsub_broker.Number.Reference.{horner, all_digits, magnitude, decimal, string2ll-decimal}

-- The digits of a number, the last one appended to those of the number divided by ten.
unfoldable pub print_fuel : ℕ → ℕ → Bytes
print_fuel zero n = []
print_fuel (suc f) n =
    let front = print_fuel f (n / 10) in
    if ltb n 10 then (n + b'0') ∷ [] else front ++ ((n % 10 + b'0') ∷ [])

unfoldable pub print : ℕ → Bytes
unfolding print_fuel
print n = print_fuel (suc n) n

horner-append : (v : ℕ) (s : Bytes) (d : ℕ) → horner v (s ++ (d + b'0') ∷ []) ≡ horner v s * 10 + d
unfolding horner
horner-append v [] d = omega arith
horner-append v (c ∷ s) d = horner-append (v * 10 + (c - b'0')) s d

all_digits-append :
    (s : Bytes) (d : ℕ) → all_digits s ≡ true → d < 10 → all_digits (s ++ (d + b'0') ∷ []) ≡ true
unfolding all_digits
all_digits-append [] d h lt = ground arith
all_digits-append (c ∷ s) d h lt = ground (arith, all_digits-append s d)

magnitude-append :
    (s : Bytes) (v d : ℕ)
    → magnitude s ≡ some v
    → d < 10
    → magnitude (s ++ (d + b'0') ∷ []) ≡ some (v * 10 + d)
unfolding magnitude
magnitude-append [] v d h lt = ground arith
magnitude-append (c ∷ s) v d h lt =
    ground (arith, all_digits-append s d, horner-append (c - b'0') s d)

magnitude-small : (n : ℕ) → 0 < n → n < 10 → magnitude ((n + b'0') ∷ []) ≡ some n
unfolding magnitude
magnitude-small n p h = ground arith

magnitude-print_fuel : (f n : ℕ) → n < f → 0 < n → magnitude (print_fuel f n) ≡ some n
unfolding print_fuel
magnitude-print_fuel zero n h p = absurd (omega arith)
magnitude-print_fuel (suc f) n h p = ground (
  arith,
  magnitude-small n,
  magnitude-print_fuel f (n / 10),
  magnitude-append (print_fuel f (n / 10)) (n / 10) (n % 10),
)

decimal_of_magnitude : (s : Bytes) (v : ℕ) → magnitude s ≡ some v → decimal s ≡ some (pos v)
unfolding magnitude decimal
decimal_of_magnitude [] v h = ground arith
decimal_of_magnitude (c ∷ s) v h = ground arith

pub decimal-print : (n : ℕ) → decimal (print n) ≡ some (pos n)
unfolding print decimal
decimal-print zero = refl
decimal-print (suc n) =
    decimal_of_magnitude (print (suc n)) (suc n)
      (magnitude-print_fuel (suc (suc n)) (suc n) (omega arith) (omega arith))

-- `string2ll` reads back every printed number of its range.
pub string2ll-print : (n : ℕ) → n ≤ llong_max → string2ll (print n) ≡ some (pos n)
string2ll-print n h = rw (string2ll-decimal, decimal-print n) (ground arith)

all_digits-print_fuel : (f n : ℕ) → all_digits (print_fuel f n) ≡ true
unfolding all_digits print_fuel
all_digits-print_fuel zero n = refl
all_digits-print_fuel (suc f) n =
    ground
      (arith, all_digits-append (print_fuel f (n / 10)) (n % 10), all_digits-print_fuel f (n / 10))

pub all_digits-print : (n : ℕ) → all_digits (print n) ≡ true
unfolding print
all_digits-print n = all_digits-print_fuel (suc n) n
