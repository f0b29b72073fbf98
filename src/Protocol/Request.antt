-- ===== src/Protocol/Request.antt =====
-- A whole request on a connection that waits for one.
use mini_pubsub_broker.Base.{
  ℕ, suc, ◌+◌, ◌-◌, ◌≤◌, ◌<◌, ◌≡◌, refl, sym, ap, ◌∙◌, Option, none, some, List, [], ◌∷◌, ◌++◌, map,
  append_assoc, Bytes, length, set, replicate, length-append, length-replicate, arith, le→ltb,
  ne→==, ◌==◌, if◌then◌else◌, pos, drop,
}
use mathlib.Core.Path.{ap₂}
use mini_pubsub_broker.Number.Print.{print, string2ll-print}
use mini_pubsub_broker.Libc.{cr, lf, slice, strchr}
use mini_pubsub_broker.Sds.{Sds}
use mini_pubsub_broker.Client.{ok, fault, ◌>>=◌, subcli_ok, sub_read_buf_len, SubClient, alloc_argv}
use mini_pubsub_broker.Protocol.Multibulk.{
  left, finish_bulks, run_bulks, start_bulks, count_line, find_count, process_multibulk_buffer,
}
use mini_pubsub_broker.Protocol.Encode.{encode_args, encode, drop-encode, FitBulks}
use mini_pubsub_broker.Protocol.Decode.{
  fill, add_args, slice-print, strchr-print, drop-line, bulk_loop-encode_args, bulk_loop-overflow,
}

pub set-append {ℓ} :
    {A : Type ℓ} (xs : List A) (y z : A) (ys : List A)
    → set (xs ++ y ∷ ys) (length xs) z ≡ xs ++ z ∷ ys
set-append [] y z ys = refl
set-append (x ∷ xs) y z ys = ap (λ r. x ∷ r) (set-append xs y z ys)

-- Filling the free slots behind those that are taken.
fill-replicate :
    (front : List (Option Bytes)) (args : List Bytes)
    → fill (front ++ replicate (length args) none) (length front) args ≡ front ++ map some args
unfolding fill
fill-replicate front [] = refl
fill-replicate front (a ∷ args) =
    ap₂ (λ (slots : List (Option Bytes)) (i : ℕ). fill slots i args)
      (set-append front none (some a) (replicate (length args) none)
        ∙ sym (append_assoc front (some a ∷ []) (replicate (length args) none)))
      (sym (length-append front (some a ∷ [])))
    ∙ fill-replicate (front ++ (some a ∷ [])) args
    ∙ append_assoc front (some a ∷ []) (map some args)

-- A connection between two requests, with no part of one read.
pub record IsIdle (c : SubClient) : Type 0 where
  pub no_args : c.argc ≡ 0
  pub no_count : c.multi_bulk_len ≡ 0
  pub no_length : c.bulk_len ≡ none

-- The state behind a request, with what is left in the buffer.
abbrev pub requested : SubClient → List Bytes → Bytes → SubClient
requested c args rest = record c {
  read_buf = rest;
  multi_bulk_len = 0;
  bulk_len = none;
  argc = length args;
  argv = map some args;
}

module _ (lib : Sds) where
  start_bulks-pos :
      (n newline : ℕ) (c : SubClient)
      → 0 < n
      → n ≤ sub_read_buf_len
      → start_bulks lib (some (pos n)) newline c
        ≡ run_bulks lib (newline + 2) (alloc_argv n (record c { multi_bulk_len = n }))
  unfolding start_bulks
  start_bulks-pos n newline c h fit = ground arith

  count_line-print :
      (c : SubClient) (n : ℕ) (r : Bytes)
      → drop 0 c.read_buf ≡ b'*' ∷ (print n ++ (cr ∷ r))
      → suc (length (print n)) + 2 ≤ length c.read_buf
      → 0 < n
      → n ≤ sub_read_buf_len
      → count_line lib c (suc (length (print n)))
        ≡ run_bulks lib
            (suc (length (print n)) + 2)
            (alloc_argv n (record c { multi_bulk_len = n }))
  unfolding count_line
  count_line-print c n r e h p fit =
      let digits : slice c.read_buf 1 (suc (length (print n)) - 1) ≡ print n =
        ap (slice c.read_buf 1) (omega arith) ∙ slice-print c.read_buf 0 n b'*' r e in
      rw
        (
          le→ltb (length c.read_buf) (suc (length (print n)) + 2) h,
          ne→== (suc (length (print n))) 0 (omega arith),
          digits,
          string2ll-print n (omega arith),
        )
        (start_bulks-pos n (suc (length (print n))) c p fit)

  -- The count line of a request, whatever stands behind it.
  pub process_multibulk_buffer-started :
      (c : SubClient) (n : ℕ) (body : Bytes)
      → c.multi_bulk_len ≡ 0
      → c.read_buf ≡ b'*' ∷ (print n ++ (cr ∷ lf ∷ body))
      → 0 < n
      → n ≤ sub_read_buf_len
      → process_multibulk_buffer lib c
        ≡ run_bulks lib
            (suc (length (print n)) + 2)
            (alloc_argv n (record c { multi_bulk_len = n }))
  unfolding process_multibulk_buffer
  process_multibulk_buffer-started c n body em eb positive fit =
      let found : strchr c.read_buf cr ≡ some (suc (length (print n))) =
        rw eb (strchr-print n b'*' (lf ∷ body) (omega arith) (omega arith)) in
      let size : length c.read_buf ≡ suc (length (print n) + (2 + length body)) =
        rw eb (omega (arith, length-append (print n) (cr ∷ lf ∷ body))) in
      ap (λ k. if k == 0 then find_count lib c (strchr c.read_buf cr) else run_bulks lib 0 c) em
      ∙ ap (find_count lib c) found
      ∙ count_line-print c n (lf ∷ body) eb (omega arith) positive fit

  process_multibulk_buffer-count :
      (c : SubClient) (args : List Bytes) (rest : Bytes)
      → c.multi_bulk_len ≡ 0
      → c.read_buf ≡ encode args rest
      → 0 < length args
      → length args ≤ sub_read_buf_len
      → process_multibulk_buffer lib c
        ≡ run_bulks lib
            (suc (length (print (length args))) + 2)
            (alloc_argv (length args) (record c { multi_bulk_len = length args }))
  unfolding encode
  process_multibulk_buffer-count c args rest em eb some_args fit =
      process_multibulk_buffer-started c (length args) (encode_args args rest) em eb some_args fit

  -- What the offset behind a count line finds.
  pub drop-started :
      (buf : Bytes) (n : ℕ) (body : Bytes)
      → buf ≡ b'*' ∷ (print n ++ (cr ∷ lf ∷ body))
      → (drop (suc (length (print n)) + 2) buf ≡ body) × (suc (length (print n)) + 2 ≤ length buf)
  drop-started buf n body e = (
    ap (λ (k : ℕ). drop k buf) {y = 0 + suc (length (print n)) + 2} (omega arith)
        ∙ drop-line buf 0 n b'*' body e,
    omega (arith, ap (length {0}) e, length-append (print n) (cr ∷ lf ∷ body)),
  )

  drop-count :
      (buf : Bytes) (args : List Bytes) (rest : Bytes)
      → buf ≡ encode args rest
      → (drop (suc (length (print (length args))) + 2) buf ≡ encode_args args rest)
        × (suc (length (print (length args))) + 2 ≤ length buf)
  unfolding encode
  drop-count buf args rest e = drop-started buf (length args) (encode_args args rest) e

  finish_bulks-left :
      (p : ℕ) (c : SubClient)
      → 0 < p
      → c.multi_bulk_len ≡ 0
      → finish_bulks lib (left p c) ≡ ok (subcli_ok, record c { read_buf = drop p c.read_buf })
  unfolding finish_bulks
  finish_bulks-left p c h e = ground (arith, lib.sdsrange-drop c.read_buf p)

  -- A request that has come whole, on a connection that waits for one, is read back: its strings
  -- become the argument vector, and what follows it stays in the buffer.
  pub process_multibulk_buffer-encode :
      (c : SubClient) (args : List Bytes) (rest : Bytes)
      → IsIdle c
      → c.read_buf ≡ encode args rest
      → 0 < length args
      → length args ≤ sub_read_buf_len
      → FitBulks args
      → process_multibulk_buffer lib c ≡ ok (subcli_ok, requested c args rest)
  unfolding run_bulks finish_bulks
  process_multibulk_buffer-encode c args rest idle eb some_args fit fits =
      let n = length args in
      let started = alloc_argv n (record c { multi_bulk_len = n }) in
      let stop = length c.read_buf - length rest in
      let (at_args, args_in) = drop-count c.read_buf args rest eb in
      let (behind, shorter) = drop-encode c.read_buf args rest eb in
      let slots : c.argc + n ≤ length (replicate {A = Option Bytes} n none) =
        omega (arith, length-replicate {0} {A = Option Bytes} n none, idle.no_args) in
      let filled : fill (replicate n none) c.argc args ≡ map some args =
        ap (λ (i : ℕ). fill (replicate n none) i args) idle.no_args ∙ fill-replicate [] args in
      process_multibulk_buffer-count c args rest idle.no_count eb some_args fit
      ∙ ap (λ r. r >>= finish_bulks lib)
          (bulk_loop-encode_args lib args (suc (length (print n)) + 2) rest started idle.no_length
            refl at_args args_in slots fits)
      ∙ finish_bulks-left stop (add_args lib started args) (omega arith) refl
      ∙ ground (arith, behind, filled, idle.no_args)

  -- A second request in the buffer, read while the arguments of a first one are still held, writes
  -- behind the end of the array that is allocated for it.
  pub process_multibulk_buffer-overflow :
      (c : SubClient) (args : List Bytes) (rest : Bytes)
      → 0 < c.argc
      → c.multi_bulk_len ≡ 0
      → c.bulk_len ≡ none
      → c.read_buf ≡ encode args rest
      → 0 < length args
      → length args ≤ sub_read_buf_len
      → FitBulks args
      → process_multibulk_buffer lib c ≡ fault
  unfolding run_bulks
  process_multibulk_buffer-overflow c args rest held em el eb some_args fit fits =
      let n = length args in
      let started = alloc_argv n (record c { multi_bulk_len = n }) in
      let (at_args, args_in) = drop-count c.read_buf args rest eb in
      let short : length (replicate {A = Option Bytes} n none) < c.argc + n =
        omega (arith, length-replicate {0} {A = Option Bytes} n none) in
      process_multibulk_buffer-count c args rest em eb some_args fit
      ∙ ap (λ r. r >>= finish_bulks lib)
          (bulk_loop-overflow lib args (suc (length (print n)) + 2) rest started el at_args args_in
            some_args short fits)
