-- ===== src/Sds.antt =====
-- The calls of the sds library (src/common/sds.c, a copy of Redis's). A value of type `sds` is read
-- as its `sdslen` bytes. The laws are what sds.c documents of each call.
use mini_pubsub_broker.Base.{
  ℕ, ◌≤◌, ◌≡◌, Option, List, ◌∷◌, ◌++◌, [], Bytes, length, take, drop, ℤ, pos, negsuc,
}
use mini_pubsub_broker.Number.Print.{print}
use mini_pubsub_broker.Libc.{cr, lf, c_string}

pub record Sds : Type 0 where
  -- The first `len` bytes at an address.
  pub sdsnewlen : Bytes → ℕ → Bytes
  -- The bytes from one index to another, both included; -1 is the last byte.
  pub sdsrange : Bytes → ℤ → ℤ → Bytes
  -- The arguments of a line, or `none` where its quotes are not balanced.
  pub sdssplitargs : Bytes → Option (List Bytes)
  pub sdstolower : Bytes → Bytes
  pub sdsclear : Bytes → Bytes
  -- `sdscatprintf(sdsempty(), "$%lu\r\n", len)`.
  pub sdscatprintf_len : ℕ → Bytes
  -- `sdscatvprintf` with a format of one `%s`, given as what stands before and behind it.
  pub sdscatvprintf : Bytes → Bytes → Bytes → Bytes
  pub sdsnewlen-take : (s : Bytes) (n : ℕ) → n ≤ length s → sdsnewlen s n ≡ take n s
  pub sdsrange-drop : (s : Bytes) (n : ℕ) → sdsrange s (pos n) (negsuc 0) ≡ drop n s
  pub sdsclear-nil : (s : Bytes) → sdsclear s ≡ []
  -- Texts that end before their first NUL are put together.
  pub sdscatvprintf-append :
      (before arg after : Bytes)
      → c_string before ≡ before
      → c_string arg ≡ arg
      → c_string after ≡ after
      → sdscatvprintf before arg after ≡ before ++ (arg ++ after)
  pub sdscatprintf_len-print : (n : ℕ) → sdscatprintf_len n ≡ b'$' ∷ (print n ++ (cr ∷ lf ∷ []))
