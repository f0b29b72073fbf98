-- ===== src/Reply.antt =====
-- The replies of src/protocol/subcli.c: bytes put into the write buffer of a subscriber, and the
-- events of its socket.
pub mod Buffer
pub mod Send
pub mod Error
pub mod Bounds
use mini_pubsub_broker.Base.{
  ℕ, ◌+◌, ◌-◌, ◌%◌, ◌^◌, Bool, true, false, ◌||◌, [], ◌∷◌, ◌++◌, map, Bytes, length, take, ltb,
  ◌==◌, if◌then◌else◌,
}
use mini_pubsub_broker.Libc.{cr, lf}
use mini_pubsub_broker.Sds.{Sds}
use mini_pubsub_broker.Libevent.{Libevent}
use mini_pubsub_broker.Client.{
  Run, ok, fault, ◌>>=◌, Status, subcli_ok, subcli_err, sub_write_buf_len, Events, SubClient,
}

-- The replies of `create_shared_struct`, and the texts of the commands.
abbrev pub crlf : Bytes
crlf = cr ∷ lf ∷ []

abbrev pub pong : Bytes
pong = b'+' ∷ b'P' ∷ b'O' ∷ b'N' ∷ b'G' ∷ crlf

abbrev pub err_prefix : Bytes
err_prefix = b'-' ∷ b'E' ∷ b'R' ∷ b'R' ∷ b' ' ∷ []

-- Room is a difference of two `size_t`.
unfoldable pub add_reply_to_buf : SubClient → Bytes → ℕ → Status × SubClient
add_reply_to_buf c s len =
    let available = (2 ^ 64 + sub_write_buf_len - length c.wbuf) % 2 ^ 64 in
    if ltb available len
    then (subcli_err, c)
    else (subcli_ok, record c { wbuf = c.wbuf ++ take len s })

-- Line ends become spaces.
unfoldable pub no_newline : ℕ → ℕ
no_newline b = if b == cr || b == lf then b' ' else b

module _ (ev : Libevent) where
  -- Without a new event the client is freed, and its socket is then read from it. When the new
  -- event cannot be added, the old one stays in `c->ev` though it was deleted.
  unfoldable pub subcli_event_update : SubClient → Events → Run (Status × SubClient)
  subcli_event_update c event =
      if ev.event_new c.fd event
      then (if ev.event_add c.fd event
          then ok (subcli_ok, record c { ev = event; ev_pending = true })
          else ok (subcli_err, record c { ev_pending = false }))
      else fault

  unfoldable pub prepare_to_write : SubClient → Run (Status × SubClient)
  unfolding subcli_event_update
  prepare_to_write c =
      if c.ev.ev_write
      then ok (subcli_ok, c)
      else subcli_event_update c
          (record { ev_read = c.ev.ev_read; ev_write = true; ev_persist = c.ev.ev_persist })

  -- What follows `prepare_to_write`: nothing at an error, and no word of a reply that does not fit.
  unfoldable pub add_prepared : Bytes → ℕ → Status × SubClient → Run SubClient
  unfolding add_reply_to_buf
  add_prepared s len (subcli_err, c) = ok c
  add_prepared s len (subcli_ok, c) = ok (add_reply_to_buf c s len).1

  unfoldable pub add_reply : SubClient → Bytes → Run SubClient
  unfolding prepare_to_write add_prepared
  add_reply c cnt = prepare_to_write c >>= add_prepared cnt (length cnt)

  unfoldable pub add_reply_string : SubClient → Bytes → ℕ → Run SubClient
  unfolding prepare_to_write add_prepared
  add_reply_string c s len = prepare_to_write c >>= add_prepared s len

  unfoldable pub add_reply_error_length : SubClient → Bytes → ℕ → Run SubClient
  unfolding add_reply_string
  add_reply_error_length c s len = do
    c' ← add_reply_string c err_prefix 5
    c'' ← add_reply_string c' s len
    add_reply_string c'' crlf 2

  module _ (lib : Sds) where
    unfoldable pub add_reply_bulklen : SubClient → Bytes → Run SubClient
    unfolding add_reply
    add_reply_bulklen c cnt = add_reply c (lib.sdscatprintf_len (length cnt))

    unfoldable pub add_reply_bulk : SubClient → Bytes → Run SubClient
    unfolding add_reply_bulklen
    add_reply_bulk c cnt = do
      c' ← add_reply_bulklen c cnt
      c'' ← add_reply c' cnt
      add_reply c'' crlf

    -- `fmt` is what stands before and behind its `%s`.
    unfoldable pub add_reply_error_fmt : SubClient → Bytes → Bytes → Bytes → Run SubClient
    unfolding add_reply_error_length no_newline
    add_reply_error_fmt c before arg after =
        let s = map no_newline (lib.sdscatvprintf before arg after) in
        add_reply_error_length c s (length s)
