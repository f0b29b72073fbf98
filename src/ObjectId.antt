-- ===== src/ObjectId.antt =====
-- The ids of connections: `create_objectid` of src/util.c.
pub mod Hex
pub mod Parts
use mini_pubsub_broker.Base.{
  ℕ, zero, suc, ◌+◌, ◌-◌, ◌*◌, ◌/◌, ◌%◌, Bool, true, false, [], ◌∷◌, ◌++◌, Bytes, length, take,
  drop, ltb, ◌==◌, if◌then◌else◌, ℤ, pos, negsuc, codes,
}
use mini_pubsub_broker.Client.{Run, ok, fault, ◌>>=◌}

abbrev pub hex_digit : ℕ → ℕ
hex_digit d = if ltb d 10 then d + b'0' else (d - 10) + b'a'

-- The digits of `%.<min>x` of a number below `16 ^ fuel`: at least `min` of them.
unfoldable pub hex_text : (fuel min : ℕ) → ℕ → Bytes
hex_text zero min n = []
hex_text (suc fuel) zero n =
    let rest = hex_text fuel zero (n / 16) ++ (hex_digit (n % 16) ∷ []) in
    if n == 0 then [] else rest
hex_text (suc fuel) (suc min) n = hex_text fuel min (n / 16) ++ (hex_digit (n % 16) ∷ [])

-- `sprintf(oid + offset, "%.<min>x", n)` of an `unsigned int`, with its NUL; behind the end of the
-- array it is a fault.
unfoldable pub sprintf_at : Bytes → (offset min n : ℕ) → Run Bytes
unfolding hex_text
sprintf_at oid offset min n =
    let text = hex_text 8 min n in
    if ltb (offset + length text) (length oid)
    then ok (take offset oid ++ (text ++ (0 ∷ drop (offset + suc (length text)) oid)))
    else fault

-- `INT32_MAX` and `INT16_MAX`.
abbrev pub int32_max : ℕ
int32_max = 2147483647

abbrev pub int16_max : ℕ
int16_max = 32767

-- `tv_sec` is what `gettimeofday` yields.
abbrev pub get_time_sec : ℕ → ℕ
get_time_sec tv_sec = tv_sec % int32_max

-- A number that does not fit 24 bits counts as 0.
abbrev pub in_range : ℤ → ℕ
in_range (pos n) = if ltb n 16777216 then n else 0
in_range (negsuc n) = 0

-- The array behind the call.
unfoldable pub create_objectid : (tv_sec pid : ℕ) → ℤ → Bytes → Run Bytes
unfolding sprintf_at
create_objectid tv_sec pid seq oid = do
  oid1 ← sprintf_at oid 0 8 (get_time_sec tv_sec)
  oid2 ← sprintf_at oid1 8 6 16777215
  oid3 ← sprintf_at oid2 14 4 (pid % int16_max)
  sprintf_at oid3 18 6 (in_range seq)
