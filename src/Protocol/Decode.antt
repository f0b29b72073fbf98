-- ===== src/Protocol/Decode.antt =====
-- The bulk strings of a request that has come whole are read back.
use mini_pubsub_broker.Base.{
  ℕ, suc, ◌+◌, ◌-◌, ◌≤◌, ◌<◌, ◌≡◌, refl, sym, ap, ◌∙◌, Option, none, some, List, [], ◌∷◌, ◌++◌,
  Bytes, length, drop, set, length-append, length-drop, drop-drop, drop-append, take-append,
  length-set, arith, le→ltb, ◌≢◌,
}
use native.Mathlib.Decide.{dec_lt}
use mini_pubsub_broker.Number.{string2ll}
use mini_pubsub_broker.Number.Print.{print, all_digits-print, string2ll-print}
use mini_pubsub_broker.Libc.{cr, lf, strchr, strchr-digits, slice, byte_at, byte_at-drop}
use mini_pubsub_broker.Sds.{Sds}
use mini_pubsub_broker.Client.{Run, ok, fault, max_bulk_len, SubClient, push_arg}
use mini_pubsub_broker.Protocol.Multibulk.{
  bulk, bulk_length, header_line, read_header, find_line, LoopEnd, left, read_bulk, bulk_round,
  after_header, bulk_loop,
}
use mini_pubsub_broker.Protocol.Encode.{encode_args, FitBulks}

-- What stands behind an offset of a buffer, seen from the first byte there.
pub drop-suc : (p : ℕ) (buf : Bytes) {x : ℕ} {r : Bytes} → drop p buf ≡ x ∷ r → drop (p + 1) buf ≡ r
drop-suc p buf e = sym (drop-drop p 1 buf) ∙ ap (drop 1) e

drop-behind :
    (p : ℕ) (buf xs : Bytes) {r : Bytes} → drop p buf ≡ xs ++ r → drop (p + length xs) buf ≡ r
drop-behind p buf xs {r} e =
    sym (drop-drop p (length xs) buf) ∙ ap (drop (length xs)) e ∙ drop-append xs r

byte_at-head : (p : ℕ) (buf : Bytes) {x : ℕ} {r : Bytes} → drop p buf ≡ x ∷ r → byte_at buf p ≡ x
unfolding byte_at
byte_at-head p buf e =
    ap (byte_at buf) {y = p + 0} (omega arith)
    ∙ sym (byte_at-drop p buf 0)
    ∙ ap (λ s. byte_at s 0) e

pub le-length :
    (p : ℕ) (buf : Bytes) {x : ℕ} {r : Bytes} → drop p buf ≡ x ∷ r → p + suc (length r) ≡ length buf
le-length p buf e = omega (arith, length-drop p buf, ap length e)

bulk_length-print :
    (n newline : ℕ)
    → n ≤ max_bulk_len
    → bulk_length (string2ll (print n)) newline ≡ bulk n (newline + 2)
unfolding bulk_length
bulk_length-print n newline h = rw (string2ll-print n (omega arith)) (ground arith)

-- The digits between the first byte of a line and its `\r`.
pub slice-print :
    (buf : Bytes) (p n x : ℕ) (r : Bytes)
    → drop p buf ≡ x ∷ (print n ++ (cr ∷ r))
    → slice buf (p + 1) (length (print n)) ≡ print n
unfolding slice
slice-print buf p n x r e = rw (drop-suc p buf e) (take-append (print n) (cr ∷ r))

pub strchr-print :
    (n x : ℕ) (r : Bytes)
    → x ≢ 0
    → x ≢ cr
    → strchr (x ∷ (print n ++ (cr ∷ r))) cr ≡ some (suc (length (print n)))
unfolding strchr
strchr-print n x r h k = ground (arith, strchr-digits (print n) r (all_digits-print n))

header_line-print :
    (buf : Bytes) (p n : ℕ) (r : Bytes)
    → drop p buf ≡ b'$' ∷ (print n ++ (cr ∷ lf ∷ r))
    → n ≤ max_bulk_len
    → header_line buf p (p + suc (length (print n))) ≡ bulk n (p + suc (length (print n)) + 2)
unfolding header_line
header_line-print buf p n r e h =
    let len : p + suc (suc (suc (length (print n) + length r))) ≡ length buf =
      omega (arith, le-length p buf e, length-append (print n) (cr ∷ lf ∷ r)) in
    let size : p + suc (length (print n)) - (p + 1) ≡ length (print n) = omega arith in
    rw
      (
        le→ltb (length buf) (p + suc (length (print n)) + 2) (omega arith),
        byte_at-head p buf e,
        size,
        slice-print buf p n b'$' (lf ∷ r) e,
      )
      (bulk_length-print n _ h)

-- The line `$<n>\r\n` at offset `p`.
read_header-print :
    (buf : Bytes) (p n : ℕ) (r : Bytes)
    → drop p buf ≡ b'$' ∷ (print n ++ (cr ∷ lf ∷ r))
    → n ≤ max_bulk_len
    → read_header buf p ≡ bulk n (p + suc (length (print n)) + 2)
unfolding read_header find_line
read_header-print buf p n r e h =
    rw (e, strchr-print n b'$' (lf ∷ r) (omega arith) (omega arith))
      (header_line-print buf p n r e h)

pub drop-line :
    (buf : Bytes) (p n x : ℕ) (r : Bytes)
    → drop p buf ≡ x ∷ (print n ++ (cr ∷ lf ∷ r))
    → drop (p + suc (length (print n)) + 2) buf ≡ r
drop-line buf p n x r e =
    sym (drop-drop (p + suc (length (print n))) 2 buf)
    ∙ ap (drop 2) (drop-behind p buf (x ∷ print n) e)

drop-arg :
    (buf : Bytes) (p : ℕ) (a r : Bytes)
    → drop p buf ≡ a ++ (cr ∷ lf ∷ r)
    → drop (p + (length a + 2)) buf ≡ r
drop-arg buf p a r e =
    ap (λ (k : ℕ). drop k buf) {y = p + length a + 2} (omega arith)
    ∙ sym (drop-drop (p + length a) 2 buf)
    ∙ ap (drop 2) (drop-behind p buf a e)

-- The offset of an argument, behind the line of its length at `p`.
abbrev pub behind_line : ℕ → Bytes → ℕ
behind_line p a = p + suc (length (print (length a))) + 2

-- Where an argument and what follows it stand, and that they stand in the buffer.
pub next_arg :
    (buf : Bytes) (p : ℕ) (a : Bytes) (args : List Bytes) (rest : Bytes)
    → drop p buf ≡ encode_args (a ∷ args) rest
    → (drop (behind_line p a) buf ≡ a ++ (cr ∷ lf ∷ encode_args args rest))
      × (behind_line p a ≤ length buf)
      × (drop (behind_line p a + (length a + 2)) buf ≡ encode_args args rest)
      × (behind_line p a + (length a + 2) ≤ length buf)
unfolding encode_args
next_arg buf p a args rest e =
    let more = encode_args args rest in
    let arg = drop-line buf p (length a) b'$' (a ++ (cr ∷ lf ∷ more)) e in
    let size : behind_line p a + (length a + (2 + length more)) ≡ length buf = omega (
      arith,
      le-length p buf e,
      length-append (print (length a)) (cr ∷ lf ∷ (a ++ (cr ∷ lf ∷ more))),
      length-append a (cr ∷ lf ∷ more),
    ) in
    (arg, omega arith, drop-arg buf (behind_line p a) a more arg, omega arith)

-- `argv` with the strings from slot `i` on.
unfoldable pub fill : List (Option Bytes) → ℕ → List Bytes → List (Option Bytes)
fill argv i [] = argv
fill argv i (a ∷ args) = fill (set argv i (some a)) (i + 1) args

module _ (lib : Sds) where
  bulk_arg :
      (buf : Bytes) (p n : ℕ) (a r : Bytes)
      → drop p buf ≡ a ++ (cr ∷ lf ∷ r)
      → lib.sdsnewlen (drop p buf) (length a) ≡ a
  bulk_arg buf p n a r e = rw e (
      lib.sdsnewlen-take (a ++ (cr ∷ lf ∷ r)) (length a)
        (omega (arith, length-append a (cr ∷ lf ∷ r)))
      ∙ take-append a (cr ∷ lf ∷ r))

  -- The state behind one more argument.
  abbrev pub add_arg : SubClient → Bytes → ℕ → SubClient
  add_arg c a n = record c {
    argv = set c.argv c.argc (some a);
    argc = c.argc + 1;
    bulk_len = none;
    multi_bulk_len = n;
  }

  pub read_bulk-whole :
      (next : ℕ → SubClient → Run LoopEnd) (n p : ℕ) (a r : Bytes) (c : SubClient)
      → drop p c.read_buf ≡ a ++ (cr ∷ lf ∷ r)
      → p ≤ length c.read_buf
      → c.argc < length c.argv
      → read_bulk lib next n p (length a) c ≡ next (p + (length a + 2)) (add_arg c a n)
  unfolding read_bulk push_arg
  read_bulk-whole next n p a r c e h room = ground (
    arith,
    bulk_arg c.read_buf p n a r e,
    length-drop p c.read_buf,
    ap (length {0}) e,
    length-append a (cr ∷ lf ∷ r),
  )

  read_bulk-overflow :
      (next : ℕ → SubClient → Run LoopEnd) (n p : ℕ) (a r : Bytes) (c : SubClient)
      → drop p c.read_buf ≡ a ++ (cr ∷ lf ∷ r)
      → p ≤ length c.read_buf
      → length c.argv ≤ c.argc
      → read_bulk lib next n p (length a) c ≡ fault
  unfolding read_bulk push_arg
  read_bulk-overflow next n p a r c e h full =
      ground (arith, length-drop p c.read_buf, ap (length {0}) e, length-append a (cr ∷ lf ∷ r))

  pub bulk_round-header :
      (next : ℕ → SubClient → Run LoopEnd) (n p : ℕ) (a : Bytes) (args : List Bytes) (rest : Bytes)
      (c : SubClient)
      → drop p c.read_buf ≡ encode_args (a ∷ args) rest
      → length a ≤ max_bulk_len
      → p ≤ length c.read_buf
      → bulk_round lib next n p c none ≡ read_bulk lib next n (behind_line p a) (length a) c
  unfolding bulk_round encode_args after_header
  bulk_round-header next n p a args rest c e fit h = rw (
    le→ltb (length c.read_buf) p h,
    read_header-print c.read_buf p (length a) (a ++ (cr ∷ lf ∷ encode_args args rest)) e fit,
  )

  -- The state behind all the arguments.
  abbrev pub add_args : SubClient → List Bytes → SubClient
  add_args c args = record c {
    argv = fill c.argv c.argc args;
    argc = c.argc + length args;
    bulk_len = none;
    multi_bulk_len = 0;
  }

  pub bulk_loop-encode_args :
      (args : List Bytes) (p : ℕ) (rest : Bytes) (c : SubClient)
      → c.bulk_len ≡ none
      → c.multi_bulk_len ≡ length args
      → drop p c.read_buf ≡ encode_args args rest
      → p ≤ length c.read_buf
      → c.argc + length args ≤ length c.argv
      → FitBulks args
      → bulk_loop lib (length args) p c
        ≡ ok (left (length c.read_buf - length rest) (add_args c args))
  unfolding bulk_loop encode_args fill
  bulk_loop-encode_args [] p rest c eb em e h room fit =
      ground (arith, ap (length {0}) e, length-drop p c.read_buf)
  bulk_loop-encode_args (a ∷ args) p rest c eb em e h room fit =
      let p' = behind_line p a in
      let (at_arg, arg_in, behind, in_buf) = next_arg c.read_buf p a args rest e in
      let next = bulk_loop lib (length args) in
      let room' : c.argc + 1 + length args ≤ length (set c.argv c.argc (some a)) =
        omega (arith, length-set c.argv c.argc (some a)) in
      ap (bulk_round lib next (length args) p c) eb
      ∙ bulk_round-header next (length args) p a args rest c e fit.0 h
      ∙ read_bulk-whole next (length args) p' a (encode_args args rest) c at_arg arg_in
          (omega arith)
      ∙ bulk_loop-encode_args args (p' + (length a + 2)) rest (add_arg c a (length args)) refl refl
          behind in_buf room' fit.1
      ∙ ground arith

  -- With too few slots in `argv` for the strings, one of them is written behind its end.
  pub bulk_loop-overflow :
      (args : List Bytes) (p : ℕ) (rest : Bytes) (c : SubClient)
      → c.bulk_len ≡ none
      → drop p c.read_buf ≡ encode_args args rest
      → p ≤ length c.read_buf
      → 0 < length args
      → length c.argv < c.argc + length args
      → FitBulks args
      → bulk_loop lib (length args) p c ≡ fault
  unfolding bulk_loop encode_args
  bulk_loop-overflow [] p rest c eb e h some_args short fit = absurd (omega arith)
  bulk_loop-overflow (a ∷ args) p rest c eb e h some_args short fit =
      let p' = behind_line p a in
      let (at_arg, arg_in, behind, in_buf) = next_arg c.read_buf p a args rest e in
      let next = bulk_loop lib (length args) in
      ap (bulk_round lib next (length args) p c) eb
      ∙ bulk_round-header next (length args) p a args rest c e fit.0 h
      ∙ elim (dec_lt c.argc (length c.argv)) [
        | yes room ↦
            read_bulk-whole next (length args) p' a (encode_args args rest) c at_arg arg_in room
            ∙ bulk_loop-overflow args (p' + (length a + 2)) rest (add_arg c a (length args)) refl
                behind in_buf (omega arith) (omega (arith, length-set c.argv c.argc (some a))) fit.1
        | no full ↦
            read_bulk-overflow next (length args) p' a (encode_args args rest) c at_arg arg_in
              (omega arith)
      ]
