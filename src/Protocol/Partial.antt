-- ===== src/Protocol/Partial.antt =====
-- A request of which only the first arguments have come.
use mathlib.Core.Path.{ap₂, sym}
use mini_pubsub_broker.Base.{
  le→ltb, append_assoc, ℕ, zero, suc, ◌+◌, ◌≤◌, ◌<◌, ◌≡◌, refl, ap, ◌∙◌, none, some, List, [], ◌∷◌,
  ◌++◌, map, Bytes, length, drop, set, replicate, length-set, length-drop, length-replicate,
  length-append, arith, Option,
}
use mini_pubsub_broker.Number.Print.{print}
use mini_pubsub_broker.Libc.{cr, lf, strchr}
use mini_pubsub_broker.Sds.{Sds}
use mini_pubsub_broker.Client.{
  ok, ◌>>=◌, subcli_err, sub_read_buf_len, max_inline_read, SubClient, alloc_argv,
}
use mini_pubsub_broker.Protocol.Multibulk.{
  find_line, read_header, left, after_header, bulk_round, bulk_loop, finish_bulks, run_bulks,
  process_multibulk_buffer,
}
use mini_pubsub_broker.Protocol.ReadLoop.{
  request_type, process_buffer, go_on, read_round, read_loop,
}
use mini_pubsub_broker.Protocol.Pipeline.{multibulk}
use mini_pubsub_broker.Protocol.Encode.{encode_args, FitBulks}
use mini_pubsub_broker.Protocol.Decode.{
  fill, behind_line, next_arg, add_arg, read_bulk-whole, bulk_round-header,
}
use mini_pubsub_broker.Protocol.Request.{
  IsIdle, set-append, process_multibulk_buffer-started, drop-started,
}

-- The first part of a request: its count, and some of its arguments.
abbrev pub encode_part : ℕ → List Bytes → Bytes
encode_part n args = b'*' ∷ (print n ++ (cr ∷ lf ∷ encode_args args []))

-- The state behind the arguments that have come, with the number of those that have not.
abbrev pub part_read : SubClient → List Bytes → ℕ → SubClient
part_read c args missing = record c {
  argv = fill c.argv c.argc args;
  argc = c.argc + length args;
  bulk_len = none;
  multi_bulk_len = missing;
}

-- Filling some of the free slots.
fill-part :
    (front : List (Option Bytes)) (args : List Bytes) (n m : ℕ)
    → n ≡ length args + m
    → fill (front ++ replicate n none) (length front) args
      ≡ front ++ (map some args ++ replicate m none)
unfolding fill
fill-part front [] n m e = ap (λ (k : ℕ). front ++ replicate k none) (omega arith)
fill-part front (a ∷ args) zero m e = absurd (omega arith)
fill-part front (a ∷ args) (suc n) m e =
    ap₂ (λ (slots : List (Option Bytes)) (i : ℕ). fill slots i args)
      (set-append front none (some a) (replicate n none)
        ∙ sym (append_assoc front (some a ∷ []) (replicate n none)))
      (sym (length-append front (some a ∷ [])))
    ∙ fill-part (front ++ (some a ∷ [])) args n m (omega arith)
    ∙ append_assoc front (some a ∷ []) (map some args ++ replicate m none)

-- A connection that holds the first arguments of a request, with slots for those that are missing.
abbrev pub part_held : SubClient → List Bytes → ℕ → SubClient
part_held c args m = record c {
  read_buf = [];
  argv = map some args ++ replicate (suc m) none;
  argc = length args;
  multi_bulk_len = suc m;
  bulk_len = none;
}

module _ (lib : Sds) where
  -- Behind the last argument that has come there is no header yet.
  bulk_round-end :
      (n p : ℕ) (c : SubClient)
      → drop p c.read_buf ≡ []
      → p ≤ length c.read_buf
      → length c.read_buf ≤ max_inline_read
      → bulk_round lib (bulk_loop lib n) n p c none ≡ ok (left (length c.read_buf) c)
  unfolding bulk_round after_header read_header find_line strchr
  bulk_round-end n p c e h small =
      let stop : p ≡ length c.read_buf =
        omega (arith, ap (length {0}) e, length-drop p c.read_buf) in
      rw (le→ltb (length c.read_buf) p h, e, le→ltb max_inline_read (length c.read_buf) small, stop)

  bulk_loop-part :
      (args : List Bytes) (n m p : ℕ) (c : SubClient)
      → n ≡ length args + suc m
      → c.bulk_len ≡ none
      → c.multi_bulk_len ≡ n
      → drop p c.read_buf ≡ encode_args args []
      → p ≤ length c.read_buf
      → length c.read_buf ≤ max_inline_read
      → c.argc + length args ≤ length c.argv
      → FitBulks args
      → bulk_loop lib n p c ≡ ok (left (length c.read_buf) (part_read c args (suc m)))
  unfolding bulk_loop encode_args fill
  bulk_loop-part args zero m p c en eb em e h small room fit = absurd (omega arith)
  bulk_loop-part [] (suc n) m p c en eb em e h small room fit =
      ap (bulk_round lib (bulk_loop lib n) n p c) eb ∙ bulk_round-end n p c e h small ∙ ground arith
  bulk_loop-part (a ∷ args) (suc n) m p c en eb em e h small room fit =
      let p' = behind_line p a in
      let (at_arg, arg_in, behind, in_buf) = next_arg c.read_buf p a args [] e in
      let next = bulk_loop lib n in
      let room' : c.argc + 1 + length args ≤ length (set c.argv c.argc (some a)) =
        omega (arith, length-set c.argv c.argc (some a)) in
      ap (bulk_round lib next n p c) eb
      ∙ bulk_round-header lib next n p a args [] c e fit.0 h
      ∙ read_bulk-whole lib next n p' a (encode_args args []) c at_arg arg_in (omega arith)
      ∙ bulk_loop-part args n m (p' + (length a + 2)) (add_arg lib c a n) (omega arith) refl refl
          behind in_buf small room' fit.1
      ∙ ground arith

  drop-length : (buf : Bytes) → drop (length buf) buf ≡ []
  drop-length [] = refl
  drop-length (b ∷ buf) = drop-length buf

  finish_bulks-part :
      (c : SubClient) (m : ℕ)
      → c.multi_bulk_len ≡ suc m
      → 0 < length c.read_buf
      → finish_bulks lib (left (length c.read_buf) c) ≡ ok (subcli_err, record c { read_buf = [] })
  unfolding finish_bulks
  finish_bulks-part c m e h =
      ground (arith, lib.sdsrange-drop c.read_buf (length c.read_buf), drop-length c.read_buf)

  -- The arguments that have come are held, the buffer is empty, and the call says that the request
  -- is not complete.
  pub process_multibulk_buffer-part :
      (c : SubClient) (args : List Bytes) (m : ℕ)
      → IsIdle c
      → c.read_buf ≡ encode_part (length args + suc m) args
      → length args + suc m ≤ sub_read_buf_len
      → length c.read_buf ≤ max_inline_read
      → FitBulks args
      → process_multibulk_buffer lib c ≡ ok (subcli_err, part_held c args m)
  unfolding run_bulks
  process_multibulk_buffer-part c args m idle e fit small fits =
      let n = length args + suc m in
      let started = alloc_argv n (record c { multi_bulk_len = n }) in
      let (at_args, args_in) = drop-started lib c.read_buf n (encode_args args []) e in
      let slots : c.argc + length args ≤ length (replicate {A = Option Bytes} n none) =
        omega (arith, length-replicate {0} {A = Option Bytes} n none, idle.no_args) in
      let filled : fill (replicate n none) c.argc args ≡ map some args ++ replicate (suc m) none =
        ap (λ (i : ℕ). fill (replicate n none) i args) idle.no_args
        ∙ fill-part [] args n (suc m) refl in
      process_multibulk_buffer-started lib c n (encode_args args []) idle.no_count e (omega arith)
        fit
      ∙ ap (λ r. r >>= finish_bulks lib)
          (bulk_loop-part args n m (suc (length (print n)) + 2) started refl idle.no_length refl
            at_args args_in small slots fits)
      ∙ finish_bulks-part (part_read started args (suc m)) m refl (omega arith)
      ∙ ground (arith, filled, idle.no_args)

  -- The read loop stops there.
  pub read_loop-part :
      (f : ℕ) (c : SubClient) (args : List Bytes) (m : ℕ)
      → IsIdle c
      → c.read_buf ≡ encode_part (length args + suc m) args
      → length args + suc m ≤ sub_read_buf_len
      → length c.read_buf ≤ max_inline_read
      → FitBulks args
      → read_loop lib (suc f) c ≡ ok (part_held (multibulk c) args m)
  unfolding read_loop read_round process_buffer request_type go_on
  read_loop-part f c args m idle e fit small fits =
      ap (read_round lib (read_loop lib f) c) e
      ∙ ap (λ r. r >>= go_on (read_loop lib f))
          (process_multibulk_buffer-part (multibulk c) args m
            (record {
              no_args = idle.no_args;
              no_count = idle.no_count;
              no_length = idle.no_length;
            })
            e fit small fits)
