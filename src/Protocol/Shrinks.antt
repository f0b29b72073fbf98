-- ===== src/Protocol/Shrinks.antt =====
-- Each request that is read takes at least one byte off the buffer.
use mini_pubsub_broker.Base.{
  ℕ, ◌+◌, ◌-◌, ◌<◌, ◌≡◌, refl, ap, inl, inr, Option, none, some, List, [], ◌∷◌, Bytes, length,
  length-drop, ltb, ◌==◌, ℤ, pos, negsuc, arith, Bool-cases, ne→==,
}
use mini_pubsub_broker.Number.{string2ll}
use mini_pubsub_broker.Libc.{cr, lf, strchr, slice}
use mini_pubsub_broker.Sds.{Sds}
use mini_pubsub_broker.Client.{
  Run, ok, fault, exit, out_of_fuel, ◌>>=◌, Status, subcli_ok, subcli_err, SubClient, push_arg,
  alloc_argv, sub_read_buf_len, req_inline, req_multibulk,
}
use mini_pubsub_broker.Protocol.Multibulk.{
  LoopEnd, left, protocol_error, finish_bulks, run_bulks, start_bulks, count_line, find_count,
  process_multibulk_buffer,
}
use mini_pubsub_broker.Protocol.Inline.{
  query_len, copy_args, process_line, find_end, process_inline_buffer,
}
use mini_pubsub_broker.Protocol.ReadLoop.{request_type, process_buffer}
use mini_pubsub_broker.Protocol.Advances.{Advances, bulk_loop-Advances}

-- A call with at least one byte in the buffer either stops the read loop or takes a byte off.
abbrev pub Shrinks : Bytes → Run (Status × SubClient) → Type 0
Shrinks buf (ok (subcli_ok, c)) = length c.read_buf < length buf
Shrinks buf (ok (subcli_err, c)) = Unit {0}
Shrinks buf fault = Unit {0}
Shrinks buf exit = ⊥
Shrinks buf out_of_fuel = ⊥

module _ (lib : Sds) where
  range-shrinks :
      (buf : Bytes) (c : SubClient) (p : ℕ)
      → c.read_buf ≡ buf
      → 0 < p
      → 0 < length buf
      → length (lib.sdsrange c.read_buf (pos p) (negsuc 0)) < length buf
  range-shrinks buf c p same h some_bytes = omega (
    arith,
    ap (length {0}) (lib.sdsrange-drop c.read_buf p),
    length-drop p c.read_buf,
    ap (length {0}) same,
  )

  finish_bulks-Shrinks :
      (buf : Bytes) (n p : ℕ) (r : Run LoopEnd)
      → 0 < p + n
      → 0 < length buf
      → Advances buf n p r
      → Shrinks buf (r >>= finish_bulks lib)
  unfolding finish_bulks
  finish_bulks-Shrinks buf n p (ok (left p' c)) h some_bytes (same, later, full) =
      elim (Bool-cases (c.multi_bulk_len == 0)) [
        | inl done ↦
            rw (done, ne→== p' 0 (ground arith))
              (range-shrinks buf c p' same (ground arith) some_bytes)
        | inr more ↦ rw more tt
      ]
  finish_bulks-Shrinks buf n p (ok (protocol_error c)) h some_bytes a = tt
  finish_bulks-Shrinks buf n p fault h some_bytes a = tt
  finish_bulks-Shrinks buf n p exit h some_bytes a = a
  finish_bulks-Shrinks buf n p out_of_fuel h some_bytes a = a

  run_bulks-Shrinks :
      (p : ℕ) (c : SubClient)
      → 0 < p + c.multi_bulk_len
      → 0 < length c.read_buf
      → Shrinks c.read_buf (run_bulks lib p c)
  unfolding run_bulks
  run_bulks-Shrinks p c h some_bytes =
      finish_bulks-Shrinks c.read_buf c.multi_bulk_len p _ h some_bytes
        (bulk_loop-Advances lib c.multi_bulk_len p c refl)

  start_bulks-Shrinks :
      (ll : Option ℤ) (newline : ℕ) (c : SubClient)
      → 0 < length c.read_buf
      → Shrinks c.read_buf (start_bulks lib ll newline c)
  unfolding start_bulks
  start_bulks-Shrinks none newline c h = tt
  start_bulks-Shrinks (some (negsuc n)) newline c h =
      range-shrinks c.read_buf c (newline + 2) refl (omega arith) h
  start_bulks-Shrinks (some (pos n)) newline c h = elim (Bool-cases (ltb sub_read_buf_len n)) [
    | inl big ↦ rw big tt
    | inr fits ↦ rw fits (elim (Bool-cases (n == 0)) [
      | inl none_come ↦ rw none_come (range-shrinks c.read_buf c (newline + 2) refl (omega arith) h)
      | inr bulks ↦ rw bulks (
          run_bulks-Shrinks (newline + 2) (alloc_argv n (record c { multi_bulk_len = n }))
            (omega arith) h)
    ])
  ]

  count_line-Shrinks :
      (c : SubClient) (newline : ℕ)
      → 0 < length c.read_buf
      → Shrinks c.read_buf (count_line lib c newline)
  unfolding count_line
  count_line-Shrinks c newline h = elim (Bool-cases (ltb (length c.read_buf) (newline + 2))) [
    | inl short ↦ rw short tt
    | inr whole ↦ rw whole (elim (Bool-cases (newline == 0)) [
      | inl first ↦ rw first tt
      | inr behind ↦
          rw behind (start_bulks-Shrinks (string2ll (slice c.read_buf 1 (newline - 1))) newline c h)
    ])
  ]

  find_count-Shrinks :
      (c : SubClient) (newline : Option ℕ)
      → 0 < length c.read_buf
      → Shrinks c.read_buf (find_count lib c newline)
  unfolding find_count
  find_count-Shrinks c none h = tt
  find_count-Shrinks c (some newline) h = count_line-Shrinks c newline h

  process_multibulk_buffer-Shrinks :
      (c : SubClient) → 0 < length c.read_buf → Shrinks c.read_buf (process_multibulk_buffer lib c)
  unfolding process_multibulk_buffer
  process_multibulk_buffer-Shrinks c h = elim (Bool-cases (c.multi_bulk_len == 0)) [
    | inl fresh ↦ rw fresh (find_count-Shrinks c (strchr c.read_buf cr) h)
    | inr partly ↦ rw partly (run_bulks-Shrinks 0 c (ground arith) h)
  ]

  -- Copying the arguments of a line leaves the buffer alone, and ends.
  abbrev KeepsBuffer : Bytes → Run SubClient → Type 0
  KeepsBuffer buf (ok c) = c.read_buf ≡ buf
  KeepsBuffer buf fault = Unit {0}
  KeepsBuffer buf exit = ⊥
  KeepsBuffer buf out_of_fuel = ⊥

  copy_args-KeepsBuffer :
      (args : List Bytes) (c : SubClient) → KeepsBuffer c.read_buf (copy_args lib args c)
  unfolding copy_args push_arg
  copy_args-KeepsBuffer [] c = refl
  copy_args-KeepsBuffer ([] ∷ args) c = copy_args-KeepsBuffer args c
  copy_args-KeepsBuffer ((b ∷ s) ∷ args) c = elim (Bool-cases (ltb c.argc (length c.argv))) [
    | inl room ↦ rw room (copy_args-KeepsBuffer args _)
    | inr full ↦ rw full tt
  ]

  copied-Shrinks :
      (buf buf' : Bytes) (r : Run SubClient)
      → KeepsBuffer buf' r
      → length buf' < length buf
      → Shrinks buf (r >>= λ c. ok (subcli_ok, c))
  copied-Shrinks buf buf' (ok c) same h = omega (arith, ap (length {0}) same)
  copied-Shrinks buf buf' fault same h = tt
  copied-Shrinks buf buf' exit same h = same
  copied-Shrinks buf buf' out_of_fuel same h = same

  process_line-Shrinks :
      (c : SubClient) (n : ℕ) (args : Option (List Bytes))
      → 0 < length c.read_buf
      → Shrinks c.read_buf (process_line lib c n args)
  unfolding process_line
  process_line-Shrinks c n none h = tt
  process_line-Shrinks c n (some args) h =
      copied-Shrinks c.read_buf _ _ (copy_args-KeepsBuffer args _)
        (range-shrinks c.read_buf c (n + 2) refl (omega arith) h)

  find_end-Shrinks :
      (c : SubClient) (newline : Option ℕ)
      → 0 < length c.read_buf
      → Shrinks c.read_buf (find_end lib c newline)
  unfolding find_end
  find_end-Shrinks c none h = tt
  find_end-Shrinks c (some newline) h =
      let querylen = query_len lib c.read_buf newline in
      process_line-Shrinks c querylen (lib.sdssplitargs (lib.sdsnewlen c.read_buf querylen)) h

  pub process_buffer-Shrinks :
      (c : SubClient) (b : ℕ)
      → 0 < length c.read_buf
      → Shrinks c.read_buf (process_buffer lib (record c { req_type = request_type b }))
  unfolding process_buffer request_type process_inline_buffer
  process_buffer-Shrinks c b h = elim (Bool-cases (b == b'*')) [
    | inl star ↦
        rw star (process_multibulk_buffer-Shrinks (record c { req_type = req_multibulk }) h)
    | inr other ↦
        rw other (find_end-Shrinks (record c { req_type = req_inline }) (strchr c.read_buf lf) h)
  ]
