-- ===== src/Protocol/KeepsReplies.antt =====
-- Reading requests leaves the bounds of the write buffer alone.
use mini_pubsub_broker.Base.{
  ℕ, zero, suc, ◌+◌, ◌-◌, Option, none, some, List, [], ◌∷◌, Bytes, length, ltb, ◌==◌, ℤ, pos,
  negsuc, drop, replicate,
}
use mini_pubsub_broker.Number.{string2ll}
use mini_pubsub_broker.Libc.{cr, lf, strchr, slice, c_string}
use mini_pubsub_broker.Sds.{Sds}
use mini_pubsub_broker.Client.{
  Run, ok, Status, subcli_ok, subcli_err, SubClient, push_arg, sub_read_buf_len, max_inline_read,
  req_inline, req_multibulk,
}
use mini_pubsub_broker.Client.Returns.{Returns, Returns-bind, Returns-if, if_both, Fits}
use mini_pubsub_broker.Protocol.Multibulk.{
  Header, incomplete, too_big, malformed, bulk, read_header, LoopEnd, left, protocol_error,
  read_bulk, after_header, bulk_round, bulk_loop, finish_bulks, run_bulks, start_bulks, count_line,
  find_count, process_multibulk_buffer, set_protocol_err,
}
use mini_pubsub_broker.Protocol.Inline.{
  query_len, copy_args, process_line, find_end, process_inline_buffer,
}
use mini_pubsub_broker.Protocol.ReadLoop.{
  request_type, process_buffer, go_on, read_round, read_loop,
}

abbrev EndFits : LoopEnd → Type 0
EndFits (left p c) = Fits c
EndFits (protocol_error c) = Fits c

abbrev StatusFits : Status × SubClient → Type 0
StatusFits (status, c) = Fits c

push_arg-Fits : (s : Bytes) (c : SubClient) → Fits c → Returns Fits (push_arg s c)
unfolding push_arg
push_arg-Fits s c h = Returns-if Fits (ltb c.argc (length c.argv)) _ _ (λ _. h) (λ _. tt)

module _ (lib : Sds) where
  -- What the loop behind a bulk keeps.
  abbrev NextFits : (ℕ → SubClient → Run LoopEnd) → Type 0
  NextFits next = (p : ℕ) (c : SubClient) → Fits c → Returns EndFits (next p c)

  read_bulk-Fits :
      (next : ℕ → SubClient → Run LoopEnd) (n p len : ℕ) (c : SubClient)
      → NextFits next
      → Fits c
      → Returns EndFits (read_bulk lib next n p len c)
  unfolding read_bulk
  read_bulk-Fits next n p len c ih h =
      Returns-if EndFits (ltb (length c.read_buf) p) _ _ (λ _. tt)
        (λ _.
          Returns-if EndFits (ltb (length c.read_buf - p) (len + 2)) _ _ (λ _. h)
            (λ _.
              Returns-bind Fits EndFits (push_arg (lib.sdsnewlen (drop p c.read_buf) len) c)
                (λ c'. next (p + (len + 2)) (record c' { bulk_len = none; multi_bulk_len = n }))
                (push_arg-Fits _ c h) (λ c' h'. ih (p + (len + 2)) _ h')))

  after_header-Fits :
      (next : ℕ → SubClient → Run LoopEnd) (n p : ℕ) (c : SubClient) (line : Header)
      → NextFits next
      → Fits c
      → Returns EndFits (after_header lib next n p c line)
  unfolding after_header
  after_header-Fits next n p c incomplete ih h = h
  after_header-Fits next n p c too_big ih h = h
  after_header-Fits next n p c malformed ih h = h
  after_header-Fits next n p c (bulk len p') ih h = read_bulk-Fits next n p' len c ih h

  bulk_round-Fits :
      (next : ℕ → SubClient → Run LoopEnd) (n p : ℕ) (c : SubClient) (len : Option ℕ)
      → NextFits next
      → Fits c
      → Returns EndFits (bulk_round lib next n p c len)
  unfolding bulk_round
  bulk_round-Fits next n p c (some len) ih h = read_bulk-Fits next n p len c ih h
  bulk_round-Fits next n p c none ih h =
      Returns-if EndFits (ltb (length c.read_buf) p) _ _ (λ _. tt)
        (λ _. after_header-Fits next n p c (read_header c.read_buf p) ih h)

  bulk_loop-Fits : (n : ℕ) → NextFits (bulk_loop lib n)
  unfolding bulk_loop
  bulk_loop-Fits zero p c h = h
  bulk_loop-Fits (suc n) p c h =
      bulk_round-Fits (bulk_loop lib n) n p c c.bulk_len (bulk_loop-Fits n) h

  finish_bulks-Fits : (e : LoopEnd) → EndFits e → Returns StatusFits (finish_bulks lib e)
  unfolding finish_bulks
  finish_bulks-Fits (left p c) h = if_both Fits (p == 0) c _ h h
  finish_bulks-Fits (protocol_error c) h = h

  run_bulks-Fits : (p : ℕ) (c : SubClient) → Fits c → Returns StatusFits (run_bulks lib p c)
  unfolding run_bulks
  run_bulks-Fits p c h =
      Returns-bind EndFits StatusFits (bulk_loop lib c.multi_bulk_len p c) (finish_bulks lib)
        (bulk_loop-Fits c.multi_bulk_len p c h) finish_bulks-Fits

  start_bulks-Fits :
      (ll : Option ℤ) (newline : ℕ) (c : SubClient)
      → Fits c
      → Returns StatusFits (start_bulks lib ll newline c)
  unfolding start_bulks
  start_bulks-Fits none newline c h = h
  start_bulks-Fits (some (negsuc n)) newline c h = h
  start_bulks-Fits (some (pos n)) newline c h =
      Returns-if StatusFits (ltb sub_read_buf_len n) _ _ (λ _. h)
        (λ _. Returns-if StatusFits (n == 0) _ _ (λ _. h) (λ _. run_bulks-Fits (newline + 2) _ h))

  find_count-Fits :
      (c : SubClient) (newline : Option ℕ) → Fits c → Returns StatusFits (find_count lib c newline)
  unfolding find_count count_line
  find_count-Fits c none h = if_both Fits (ltb max_inline_read (length c.read_buf)) _ c h h
  find_count-Fits c (some newline) h =
      Returns-if StatusFits (ltb (length c.read_buf) (newline + 2)) _ _ (λ _. h)
        (λ _.
          Returns-if StatusFits (newline == 0) _ _ (λ _. tt)
            (λ _. start_bulks-Fits (string2ll (slice c.read_buf 1 (newline - 1))) newline c h))

  process_multibulk_buffer-Fits :
      (c : SubClient) → Fits c → Returns StatusFits (process_multibulk_buffer lib c)
  unfolding process_multibulk_buffer
  process_multibulk_buffer-Fits c h =
      Returns-if StatusFits (c.multi_bulk_len == 0) _ _
        (λ _. find_count-Fits c (strchr c.read_buf cr) h) (λ _. run_bulks-Fits 0 c h)

  copy_args-Fits :
      (args : List Bytes) (c : SubClient) → Fits c → Returns Fits (copy_args lib args c)
  unfolding copy_args
  copy_args-Fits [] c h = h
  copy_args-Fits ([] ∷ args) c h = copy_args-Fits args c h
  copy_args-Fits ((b ∷ s) ∷ args) c h =
      Returns-bind Fits Fits (push_arg (lib.sdsnewlen (b ∷ s) (length (c_string (b ∷ s)))) c)
        (copy_args lib args) (push_arg-Fits _ c h) (copy_args-Fits args)

  process_line-Fits :
      (c : SubClient) (n : ℕ) (args : Option (List Bytes))
      → Fits c
      → Returns StatusFits (process_line lib c n args)
  unfolding process_line set_protocol_err
  process_line-Fits c n none h = h
  process_line-Fits c n (some args) h =
      let c0 : SubClient = record c {
        read_buf = lib.sdsrange c.read_buf (pos (n + 2)) (negsuc 0);
        argc = 0;
        argv = replicate (length args) none;
      } in
      Returns-bind Fits StatusFits (copy_args lib args c0) (λ c'. ok (subcli_ok, c'))
        (copy_args-Fits args c0 h) (λ c' h'. h')

  find_end-Fits :
      (c : SubClient) (newline : Option ℕ) → Fits c → Returns StatusFits (find_end lib c newline)
  unfolding find_end set_protocol_err
  find_end-Fits c none h = if_both Fits (ltb sub_read_buf_len (length c.read_buf)) _ c h h
  find_end-Fits c (some newline) h =
      let querylen = query_len lib c.read_buf newline in
      process_line-Fits c querylen (lib.sdssplitargs (lib.sdsnewlen c.read_buf querylen)) h

  process_buffer-Fits : (c : SubClient) → Fits c → Returns StatusFits (process_buffer lib c)
  unfolding process_buffer process_inline_buffer
  process_buffer-Fits c h =
      Returns-if StatusFits (c.req_type == req_inline) _ _
        (λ _. find_end-Fits c (strchr c.read_buf lf) h)
        (λ _.
          Returns-if StatusFits (c.req_type == req_multibulk) _ _
            (λ _. process_multibulk_buffer-Fits c h) (λ _. tt))

  go_on-Fits :
      (next : SubClient → Run SubClient) (r : Status × SubClient)
      → ((c : SubClient) → Fits c → Returns Fits (next c))
      → StatusFits r
      → Returns Fits (go_on next r)
  unfolding go_on
  go_on-Fits next (subcli_ok, c) ih h = ih c h
  go_on-Fits next (subcli_err, c) ih h = h

  read_round-Fits :
      (next : SubClient → Run SubClient) (c : SubClient) (buf : Bytes)
      → ((c : SubClient) → Fits c → Returns Fits (next c))
      → Fits c
      → Returns Fits (read_round lib next c buf)
  unfolding read_round
  read_round-Fits next c [] ih h = h
  read_round-Fits next c (b ∷ buf) ih h =
      let c' : SubClient = record c { req_type = request_type b } in
      Returns-bind StatusFits Fits (process_buffer lib c') (go_on next) (process_buffer-Fits c' h)
        (λ r h'. go_on-Fits next r ih h')

  -- The write buffer stays within its array while requests are read.
  pub read_loop-Fits : (fuel : ℕ) (c : SubClient) → Fits c → Returns Fits (read_loop lib fuel c)
  unfolding read_loop
  read_loop-Fits zero c h = tt
  read_loop-Fits (suc fuel) c h =
      read_round-Fits (read_loop lib fuel) c c.read_buf (read_loop-Fits fuel) h
