-- ===== src/Reply/Buffer.antt =====
-- What a reply does to the write buffer.
use mini_pubsub_broker.Base.{
  ℕ, zero, suc, ◌+◌, ◌≤◌, ◌<◌, ◌≡◌, refl, ap, ◌∙◌, ◌⊎◌, inl, true, [], ◌∷◌, ◌++◌, append_assoc,
  Bytes, length, take, ltb, length-append, if◌then◌else◌, arith,
}
use mini_pubsub_broker.Number.Print.{print}
use mini_pubsub_broker.Sds.{Sds}
use mini_pubsub_broker.Libevent.{Libevent}
use mini_pubsub_broker.Client.{ok, ◌>>=◌, subcli_ok, sub_write_buf_len, Events, SubClient}
use mini_pubsub_broker.Reply.{
  crlf, add_reply_to_buf, subcli_event_update, prepare_to_write, add_prepared, add_reply,
  add_reply_bulklen, add_reply_bulk,
}

-- The write buffer holds no more than its array.
pub record IsSound (c : SubClient) : Type 0 where
  pub fits : length c.wbuf ≤ sub_write_buf_len

take-all : (s : Bytes) → take (length s) s ≡ s
take-all [] = refl
take-all (b ∷ s) = ap (λ r. b ∷ r) (take-all s)

length-take : (n : ℕ) (s : Bytes) → length (take n s) ≤ n
length-take zero s = omega arith
length-take (suc n) [] = omega arith
length-take (suc n) (b ∷ s) = omega (arith, length-take n s)

-- A reply to a connection whose socket is watched for writing: whole if there is room, and else
-- not a byte of it.
unfoldable pub appended : SubClient → Bytes → SubClient
appended c s =
    if ltb sub_write_buf_len (length c.wbuf + length s) then c else record c { wbuf = c.wbuf ++ s }

add_reply_to_buf-appended :
    (c : SubClient) (s : Bytes) → IsSound c → (add_reply_to_buf c s (length s)).1 ≡ appended c s
unfolding add_reply_to_buf appended
add_reply_to_buf-appended c s sound = ground (arith, take-all s)

-- Whatever length a caller gives, a reply never passes the end of the write buffer.
pub add_reply_to_buf-IsSound :
    (c : SubClient) (s : Bytes) (len : ℕ) → IsSound c → IsSound (add_reply_to_buf c s len).1
unfolding add_reply_to_buf
add_reply_to_buf-IsSound c s len sound =
    ground (arith, length-append c.wbuf (take len s), length-take len s)

appended-IsSound : (c : SubClient) (s : Bytes) → IsSound c → IsSound (appended c s)
unfolding appended
appended-IsSound c s sound = ground (arith, length-append c.wbuf s)

pub appended-fits :
    (c : SubClient) (s : Bytes)
    → length c.wbuf + length s ≤ sub_write_buf_len
    → appended c s ≡ record c { wbuf = c.wbuf ++ s }
unfolding appended
appended-fits c s h = ground arith

pub appended-drops :
    (c : SubClient) (s : Bytes) → sub_write_buf_len < length c.wbuf + length s → appended c s ≡ c
unfolding appended
appended-drops c s h = ground arith

abbrev pub write_events : Events → Events
write_events e = record { ev_read = e.ev_read; ev_write = true; ev_persist = e.ev_persist }

-- The connection with its socket watched for writing.
unfoldable pub armed : SubClient → SubClient
armed c = if c.ev.ev_write then c else record c {
  ev = record { ev_read = c.ev.ev_read; ev_write = true; ev_persist = c.ev.ev_persist };
  ev_pending = true;
}

pub ev_write-armed : (c : SubClient) → (armed c).ev.ev_write ≡ true
unfolding armed
ev_write-armed c = ground arith

armed_of_ev_write : (c : SubClient) → c.ev.ev_write ≡ true → armed c ≡ c
unfolding armed
armed_of_ev_write c h = ground arith

IsSound-armed : (c : SubClient) → IsSound c → IsSound (armed c)
unfolding armed
IsSound-armed c sound = ground arith

pub wbuf-armed : (c : SubClient) → (armed c).wbuf ≡ c.wbuf
unfolding armed
wbuf-armed c = ground arith

ev_write-appended : (c : SubClient) (s : Bytes) → (appended c s).ev.ev_write ≡ c.ev.ev_write
unfolding appended
ev_write-appended c s = ground arith

-- The line that announces a message of a length.
unfoldable pub header : Bytes → Bytes
header msg = b'$' ∷ (print (length msg) ++ crlf)

abbrev pub with_wbuf : SubClient → Bytes → SubClient
with_wbuf c w = record c { wbuf = w }

-- A line and, if both fit, the message behind it, closed by a line end.
appended-appended-fits :
    (c : SubClient) (line msg : Bytes)
    → length c.wbuf + (length line + (length msg + 2)) ≤ sub_write_buf_len
    → appended (appended (appended c line) msg) crlf
      ≡ with_wbuf c (c.wbuf ++ (line ++ (msg ++ crlf)))
appended-appended-fits c line msg h =
    let w1 = c.wbuf ++ line in
    let w2 = w1 ++ msg in
    let size1 = length-append c.wbuf line in
    ap (λ k. appended (appended k msg) crlf) (appended-fits c line (omega arith))
    ∙ ap (λ k. appended k crlf) (appended-fits (with_wbuf c w1) msg (omega arith))
    ∙ appended-fits (with_wbuf c w2) crlf (omega (arith, length-append w1 msg))
    ∙ ap (with_wbuf c) (append_assoc w1 msg crlf ∙ append_assoc c.wbuf line (msg ++ crlf))

appended-appended-drops :
    (c : SubClient) (line msg : Bytes)
    → length c.wbuf + (length line + 2) ≤ sub_write_buf_len
    → sub_write_buf_len < length c.wbuf + (length line + length msg)
    → appended (appended (appended c line) msg) crlf ≡ with_wbuf c (c.wbuf ++ (line ++ crlf))
appended-appended-drops c line msg h tight =
    let w1 = c.wbuf ++ line in
    let size1 = length-append c.wbuf line in
    ap (λ k. appended (appended k msg) crlf) (appended-fits c line (omega arith))
    ∙ ap (λ k. appended k crlf) (appended-drops (with_wbuf c w1) msg (omega arith))
    ∙ appended-fits (with_wbuf c w1) crlf (omega arith)
    ∙ ap (with_wbuf c) (append_assoc c.wbuf line crlf)

module _ (ev : Libevent) where
  -- The socket is watched for writing, or libevent agrees to watch it.
  abbrev pub CanWrite : SubClient → Type 0
  CanWrite c =
      (c.ev.ev_write ≡ true)
      ⊎ ((ev.event_new c.fd (write_events c.ev) ≡ true)
          × (ev.event_add c.fd (write_events c.ev) ≡ true))

  prepare_to_write-armed :
      (c : SubClient) → CanWrite c → prepare_to_write ev c ≡ ok (subcli_ok, armed c)
  unfolding prepare_to_write subcli_event_update armed
  prepare_to_write-armed c h = ground arith

  -- A reply is put in whole if there is room, and else not a byte of it.
  pub add_reply-appended :
      (c : SubClient) (s : Bytes)
      → IsSound c
      → CanWrite c
      → add_reply ev c s ≡ ok (appended (armed c) s)
  unfolding add_reply add_prepared
  add_reply-appended c s sound h =
      ap (λ r. r >>= add_prepared ev s (length s)) (prepare_to_write-armed c h)
      ∙ ap ok (add_reply_to_buf-appended (armed c) s (IsSound-armed c sound))

  -- The next reply of a connection that is watched already.
  add_reply-next :
      (c : SubClient) (s : Bytes)
      → IsSound c
      → c.ev.ev_write ≡ true
      → add_reply ev c s ≡ ok (appended c s)
  add_reply-next c s sound w =
      add_reply-appended c s sound (inl w) ∙ ap (λ k. ok (appended k s)) (armed_of_ev_write c w)

  -- Three replies in a row, the last of them a line end.
  pub add_reply-line :
      (c : SubClient) (line msg : Bytes)
      → IsSound c
      → CanWrite c
      → (add_reply ev c line >>= λ c'. (add_reply ev c' msg >>= λ c''. add_reply ev c'' crlf))
        ≡ ok (appended (appended (appended (armed c) line) msg) crlf)
  add_reply-line c line msg sound h =
      let c1 = appended (armed c) line in
      let sound1 = appended-IsSound (armed c) line (IsSound-armed c sound) in
      let w1 : c1.ev.ev_write ≡ true = ev_write-appended (armed c) line ∙ ev_write-armed c in
      let c2 = appended c1 msg in
      ap (λ r. r >>= λ c'. (add_reply ev c' msg >>= λ c''. add_reply ev c'' crlf))
        (add_reply-appended c line sound h)
      ∙ ap (λ r. r >>= λ c''. add_reply ev c'' crlf) (add_reply-next c1 msg sound1 w1)
      ∙ add_reply-next c2 crlf (appended-IsSound c1 msg sound1) (ev_write-appended c1 msg ∙ w1)

  pub add_reply-line_fits :
      (c : SubClient) (line msg : Bytes)
      → IsSound c
      → CanWrite c
      → length c.wbuf + (length line + (length msg + 2)) ≤ sub_write_buf_len
      → (add_reply ev c line >>= λ c'. (add_reply ev c' msg >>= λ c''. add_reply ev c'' crlf))
        ≡ ok (with_wbuf (armed c) (c.wbuf ++ (line ++ (msg ++ crlf))))
  add_reply-line_fits c line msg sound h room =
      add_reply-line c line msg sound h
      ∙ ap ok (
          appended-appended-fits (armed c) line msg (omega (arith, ap (length {0}) (wbuf-armed c))))
      ∙ ap (λ w. ok (with_wbuf (armed c) (w ++ (line ++ (msg ++ crlf))))) (wbuf-armed c)

  -- Two replies in a row, the second a line end.
  pub add_reply-pair_fits :
      (c : SubClient) (msg : Bytes)
      → IsSound c
      → CanWrite c
      → length c.wbuf + (length msg + 2) ≤ sub_write_buf_len
      → (add_reply ev c msg >>= λ c'. add_reply ev c' crlf)
        ≡ ok (with_wbuf (armed c) (c.wbuf ++ (msg ++ crlf)))
  add_reply-pair_fits c msg sound h room =
      let a = armed c in
      let size : length a.wbuf ≡ length c.wbuf = ap (length {0}) (wbuf-armed c) in
      ap (λ r. r >>= λ c'. add_reply ev c' crlf) (add_reply-appended c msg sound h)
      ∙ add_reply-next (appended a msg) crlf (appended-IsSound a msg (IsSound-armed c sound))
          (ev_write-appended a msg ∙ ev_write-armed c)
      ∙ ap (λ k. ok (appended k crlf)) (appended-fits a msg (omega (arith, size)))
      ∙ ap ok (
          appended-fits (with_wbuf a (a.wbuf ++ msg)) crlf
            (omega (arith, size, length-append a.wbuf msg)))
      ∙ ap (λ w. ok (with_wbuf a w))
          (append_assoc a.wbuf msg crlf ∙ ap (λ w. w ++ (msg ++ crlf)) (wbuf-armed c))

  module _ (lib : Sds) where
    -- The line of the length, the message and the line end of a bulk string.
    add_reply_bulk-line :
        (c : SubClient) (msg : Bytes)
        → add_reply_bulk ev lib c msg ≡ (
            add_reply ev c (header msg) >>= λ c'.
            (add_reply ev c' msg >>= λ c''. add_reply ev c'' crlf))
    unfolding add_reply_bulk add_reply_bulklen header
    add_reply_bulk-line c msg =
        ap (λ s. add_reply ev c s >>= λ c'. (add_reply ev c' msg >>= λ c''. add_reply ev c'' crlf))
          (lib.sdscatprintf_len-print (length msg))

    -- A message that fits the write buffer goes into it as one bulk string of the protocol.
    pub add_reply_bulk-fits :
        (c : SubClient) (msg : Bytes)
        → IsSound c
        → CanWrite c
        → length c.wbuf + (length (header msg) + (length msg + 2)) ≤ sub_write_buf_len
        → add_reply_bulk ev lib c msg
          ≡ ok (record (armed c) { wbuf = c.wbuf ++ (header msg ++ (msg ++ crlf)) })
    add_reply_bulk-fits c msg sound h room =
        add_reply_bulk-line c msg ∙ add_reply-line_fits c (header msg) msg sound h room

    -- When the line of the length and a line end fit the write buffer and that line with the message
    -- does not, the line and the line end go in without the message, if the socket is watched for
    -- writing or libevent agrees to watch it: the subscriber is told of bytes that do not come.
    pub add_reply_bulk-broken :
        (c : SubClient) (msg : Bytes)
        → IsSound c
        → CanWrite c
        → length c.wbuf + (length (header msg) + 2) ≤ sub_write_buf_len
        → sub_write_buf_len < length c.wbuf + (length (header msg) + length msg)
        → add_reply_bulk ev lib c msg
          ≡ ok (record (armed c) { wbuf = c.wbuf ++ (header msg ++ crlf) })
    add_reply_bulk-broken c msg sound h room tight =
        add_reply_bulk-line c msg
        ∙ add_reply-line c (header msg) msg sound h
        ∙ ap ok (
            appended-appended-drops (armed c) (header msg) msg
              (omega (arith, ap (length {0}) (wbuf-armed c)))
              (omega (arith, ap (length {0}) (wbuf-armed c))))
        ∙ ap (λ w. ok (with_wbuf (armed c) (w ++ (header msg ++ crlf)))) (wbuf-armed c)
