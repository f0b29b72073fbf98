-- ===== src/Number/Tests.antt =====
-- `string2ll` at concrete texts.
use mini_pubsub_broker.Base.{◌+◌, ◌-◌, ◌^◌, ◌≡◌, refl, none, some, [], ◌∷◌, pos, negsuc, arith}
use mini_pubsub_broker.Number.{string2ll}
use mini_pubsub_broker.Number.Reference.{decimal, keep_llong, string2ll-decimal}
use mini_pubsub_broker.Number.Print.{print, string2ll-print}

leading_zero : string2ll (b'0' ∷ b'7' ∷ []) ≡ none
unfolding string2ll
leading_zero = refl

minus_seventy : string2ll (b'-' ∷ b'7' ∷ b'0' ∷ []) ≡ some (negsuc 69)
unfolding string2ll
minus_seventy = refl

largest : string2ll (print (2 ^ 63 - 1)) ≡ some (pos (2 ^ 63 - 1))
unfolding string2ll print
largest = refl

too_large : string2ll (print (2 ^ 63)) ≡ none
unfolding string2ll print
too_large = refl

wraps_past : string2ll (print (2 ^ 64 + 5)) ≡ none
unfolding string2ll print
wraps_past = refl

string2ll-print_example : string2ll (print 16384) ≡ some (pos 16384)
string2ll-print_example = string2ll-print 16384 (omega arith)

string2ll-decimal_example :
    string2ll (b'-' ∷ b'4' ∷ b'2' ∷ []) ≡ keep_llong (decimal (b'-' ∷ b'4' ∷ b'2' ∷ []))
string2ll-decimal_example = string2ll-decimal (b'-' ∷ b'4' ∷ b'2' ∷ [])
