-- ===== src/Protocol/Multibulk.antt =====
-- `process_multibulk_buffer`: a count, then that many bulk strings, read as far as they have come.
use mini_pubsub_broker.Base.{
  ℕ, zero, suc, ◌+◌, ◌-◌, not, Option, none, some, Bytes, length, drop, ltb, ◌==◌, if◌then◌else◌, ℤ,
  pos, negsuc,
}
use mini_pubsub_broker.Number.{string2ll}
use mini_pubsub_broker.Libc.{cr, strchr, byte_at, slice}
use mini_pubsub_broker.Sds.{Sds}
use mini_pubsub_broker.Client.{
  Run, ok, fault, ◌>>=◌, Status, subcli_ok, subcli_err, sub_read_buf_len, max_inline_read,
  max_bulk_len, SubClient, alloc_argv, push_arg,
}

-- What the line `$<length>\r\n` at an offset amounts to: not complete yet, too long without a line
-- end, wrong, or a length with the offset behind the line.
pub data Header : Type 0 where
  incomplete : Header
  too_big : Header
  malformed : Header
  bulk : ℕ → ℕ → Header

unfoldable pub bulk_length : Option ℤ → ℕ → Header
bulk_length none newline = malformed
bulk_length (some (negsuc _)) newline = malformed
bulk_length (some (pos n)) newline = if ltb max_bulk_len n then malformed else bulk n (newline + 2)

-- With the `\r` at offset `newline` of the buffer.
unfoldable pub header_line : Bytes → ℕ → ℕ → Header
unfolding bulk_length
header_line buf p newline =
    if ltb (length buf) (newline + 2)
    then incomplete
    else if not (byte_at buf p == b'$')
    then malformed
    else bulk_length (string2ll (slice buf (p + 1) (newline - (p + 1)))) newline

unfoldable pub find_line : Bytes → ℕ → Option ℕ → Header
unfolding header_line
find_line buf p none = if ltb max_inline_read (length buf) then too_big else incomplete
find_line buf p (some i) = header_line buf p (p + i)

unfoldable pub read_header : Bytes → ℕ → Header
unfolding find_line
read_header buf p = find_line buf p (strchr (drop p buf) cr)

-- How the loop ends: out of it, at an offset, or with the `return` of a protocol error.
pub data LoopEnd : Type 0 where
  left : ℕ → SubClient → LoopEnd
  protocol_error : SubClient → LoopEnd

module _ (lib : Sds) where
  unfoldable pub set_protocol_err : SubClient → ℕ → SubClient
  set_protocol_err c p = record c { read_buf = lib.sdsrange c.read_buf (pos p) (negsuc 0) }

  -- The bulk string of a known length at offset `p`. `sdslen - p` does not wrap, since `p` never
  -- passes the end of the buffer: a read there would be a fault.
  unfoldable pub read_bulk : (ℕ → SubClient → Run LoopEnd) → ℕ → ℕ → ℕ → SubClient → Run LoopEnd
  read_bulk next n p len c =
      if ltb (length c.read_buf) p
      then fault
      else if ltb (length c.read_buf - p) (len + 2)
      then ok (left p (record c { bulk_len = some len }))
      else do
        c' ← push_arg (lib.sdsnewlen (drop p c.read_buf) len) c
        next (p + (len + 2)) (record c' { bulk_len = none; multi_bulk_len = n })

  unfoldable pub after_header :
      (ℕ → SubClient → Run LoopEnd) → ℕ → ℕ → SubClient → Header → Run LoopEnd
  unfolding read_bulk set_protocol_err
  after_header next n p c incomplete = ok (left p c)
  after_header next n p c too_big = ok (protocol_error (set_protocol_err c 0))
  after_header next n p c malformed = ok (protocol_error (set_protocol_err c p))
  after_header next n p c (bulk len p') = read_bulk next n p' len c

  -- One round of the loop, by `c->bulk_len`.
  unfoldable pub bulk_round :
      (ℕ → SubClient → Run LoopEnd) → ℕ → ℕ → SubClient → Option ℕ → Run LoopEnd
  unfolding after_header read_header
  bulk_round next n p c none =
      if ltb (length c.read_buf) p
      then fault
      else after_header next n p c (read_header c.read_buf p)
  bulk_round next n p c (some len) = read_bulk next n p len c

  -- `while (c->multi_bulk_len)`: the number is `c->multi_bulk_len`, which each full round lowers.
  unfoldable pub bulk_loop : ℕ → ℕ → SubClient → Run LoopEnd
  unfolding bulk_round
  bulk_loop zero p c = ok (left p c)
  bulk_loop (suc n) p c = bulk_round (bulk_loop n) n p c c.bulk_len

  -- Trim the buffer, and say whether all bulks have come.
  unfoldable pub finish_bulks : LoopEnd → Run (Status × SubClient)
  finish_bulks (protocol_error c) = ok (subcli_err, c)
  finish_bulks (left p c) = ok (
    if c.multi_bulk_len == 0 then subcli_ok else subcli_err,
    if p == 0 then c else record c { read_buf = lib.sdsrange c.read_buf (pos p) (negsuc 0) },
  )

  unfoldable pub run_bulks : ℕ → SubClient → Run (Status × SubClient)
  unfolding bulk_loop finish_bulks
  run_bulks p c = bulk_loop c.multi_bulk_len p c >>= finish_bulks

  -- With the `\r` of the count line at offset `newline`.
  unfoldable pub start_bulks : Option ℤ → ℕ → SubClient → Run (Status × SubClient)
  unfolding run_bulks
  start_bulks none newline c = ok (subcli_err, set_protocol_err c 0)
  start_bulks (some (negsuc _)) newline c =
      ok (subcli_ok, record c { read_buf = lib.sdsrange c.read_buf (pos (newline + 2)) (negsuc 0) })
  start_bulks (some (pos ll)) newline c =
      if ltb sub_read_buf_len ll
      then ok (subcli_err, set_protocol_err c 0)
      else if ll == 0
      then ok (
        subcli_ok,
        record c { read_buf = lib.sdsrange c.read_buf (pos (newline + 2)) (negsuc 0) },
      )
      else run_bulks (newline + 2) (alloc_argv ll (record c { multi_bulk_len = ll }))

  -- A `\r` in the place of the `*` would give the count a length of -1.
  unfoldable pub count_line : SubClient → ℕ → Run (Status × SubClient)
  unfolding start_bulks
  count_line c newline =
      if ltb (length c.read_buf) (newline + 2)
      then ok (subcli_err, c)
      else if newline == 0
      then fault
      else start_bulks (string2ll (slice c.read_buf 1 (newline - 1))) newline c

  unfoldable pub find_count : SubClient → Option ℕ → Run (Status × SubClient)
  unfolding count_line
  find_count c none =
      ok (subcli_err, if ltb max_inline_read (length c.read_buf) then set_protocol_err c 0 else c)
  find_count c (some newline) = count_line c newline

  unfoldable pub process_multibulk_buffer : SubClient → Run (Status × SubClient)
  unfolding find_count run_bulks
  process_multibulk_buffer c =
      if c.multi_bulk_len == 0 then find_count c (strchr c.read_buf cr) else run_bulks 0 c
