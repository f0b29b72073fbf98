-- ===== src/Reply/Bounds.antt =====
-- The write buffer stays within its array, whatever is put into it and however it is sent.
use mini_pubsub_broker.Base.{
  ℕ, ◌+◌, Option, none, some, List, [], ◌∷◌, Bytes, length, ◌==◌, if◌then◌else◌, arith,
}
use mini_pubsub_broker.Sds.{Sds}
use mini_pubsub_broker.Libevent.{Libevent}
use mini_pubsub_broker.Client.{ok, ◌>>=◌, Status, subcli_ok, subcli_err, Events, SubClient}
use mini_pubsub_broker.Client.Returns.{Returns, Returns-bind, Returns-if, if_both, Fits}
use mini_pubsub_broker.Reply.{
  crlf, err_prefix, subcli_event_update, prepare_to_write, add_prepared, add_reply,
  add_reply_string, add_reply_error_length, add_reply_bulklen, add_reply_bulk, add_reply_error_fmt,
}
use mini_pubsub_broker.Reply.Buffer.{add_reply_to_buf-IsSound}
use mini_pubsub_broker.Reply.Send.{
  Written, wrote, again, failed, Sent, send_loop, without_write, after_send, send_reply_to_subcli,
}

abbrev StatusFits : Status × SubClient → Type 0
StatusFits (status, c) = Fits c

-- A connection that may be gone.
abbrev pub LiveFits : Option SubClient → Type 0
LiveFits none = Unit {0}
LiveFits (some c) = Fits c

abbrev pub SentFits : Option SubClient × Bytes → Type 0
SentFits (live, out) = LiveFits live

abbrev LoopFits : Sent → Type 0
LoopFits s = Fits s.client

module _ (ev : Libevent) where
  subcli_event_update-Fits :
      (c : SubClient) (event : Events)
      → Fits c
      → Returns StatusFits (subcli_event_update ev c event)
  unfolding subcli_event_update
  subcli_event_update-Fits c event h =
      Returns-if StatusFits (ev.event_new c.fd event) _ _
        (λ _. Returns-if StatusFits (ev.event_add c.fd event) _ _ (λ _. h) (λ _. h)) (λ _. tt)

  prepare_to_write-Fits : (c : SubClient) → Fits c → Returns StatusFits (prepare_to_write ev c)
  unfolding prepare_to_write
  prepare_to_write-Fits c h =
      Returns-if StatusFits c.ev.ev_write _ _ (λ _. h) (λ _. subcli_event_update-Fits c _ h)

  add_prepared-Fits :
      (s : Bytes) (len : ℕ) (r : Status × SubClient)
      → StatusFits r
      → Returns Fits (add_prepared ev s len r)
  unfolding add_prepared
  add_prepared-Fits s len (subcli_err, c) h = h
  add_prepared-Fits s len (subcli_ok, c) h =
      (add_reply_to_buf-IsSound c s len (record { fits = h })).fits

  pub add_reply_string-Fits :
      (c : SubClient) (s : Bytes) (len : ℕ) → Fits c → Returns Fits (add_reply_string ev c s len)
  unfolding add_reply_string
  add_reply_string-Fits c s len h =
      Returns-bind StatusFits Fits (prepare_to_write ev c) (add_prepared ev s len)
        (prepare_to_write-Fits c h) (add_prepared-Fits s len)

  pub add_reply-Fits : (c : SubClient) (s : Bytes) → Fits c → Returns Fits (add_reply ev c s)
  unfolding add_reply
  add_reply-Fits c s h =
      Returns-bind StatusFits Fits (prepare_to_write ev c) (add_prepared ev s (length s))
        (prepare_to_write-Fits c h) (add_prepared-Fits s (length s))

  add_reply_error_length-Fits :
      (c : SubClient) (s : Bytes) (len : ℕ)
      → Fits c
      → Returns Fits (add_reply_error_length ev c s len)
  unfolding add_reply_error_length
  add_reply_error_length-Fits c s len h =
      Returns-bind Fits Fits (add_reply_string ev c err_prefix 5)
        (λ c'. add_reply_string ev c' s len >>= λ c''. add_reply_string ev c'' crlf 2)
        (add_reply_string-Fits c err_prefix 5 h)
        (λ c' h'.
          Returns-bind Fits Fits (add_reply_string ev c' s len)
            (λ c''. add_reply_string ev c'' crlf 2) (add_reply_string-Fits c' s len h')
            (λ c'' h''. add_reply_string-Fits c'' crlf 2 h''))

  module _ (lib : Sds) where
    pub add_reply_bulk-Fits :
        (c : SubClient) (msg : Bytes) → Fits c → Returns Fits (add_reply_bulk ev lib c msg)
    unfolding add_reply_bulk add_reply_bulklen
    add_reply_bulk-Fits c msg h =
        Returns-bind Fits Fits (add_reply_bulklen ev lib c msg)
          (λ c'. add_reply ev c' msg >>= λ c''. add_reply ev c'' crlf)
          (add_reply-Fits c (lib.sdscatprintf_len (length msg)) h)
          (λ c' h'.
            Returns-bind Fits Fits (add_reply ev c' msg) (λ c''. add_reply ev c'' crlf)
              (add_reply-Fits c' msg h') (λ c'' h''. add_reply-Fits c'' crlf h''))

    pub add_reply_error_fmt-Fits :
        (c : SubClient) (before arg after : Bytes)
        → Fits c
        → Returns Fits (add_reply_error_fmt ev lib c before arg after)
    unfolding add_reply_error_fmt
    add_reply_error_fmt-Fits c before arg after h = add_reply_error_length-Fits c _ _ h

  send_loop-Fits :
      (ws : List Written) (sentlen : ℕ) (last : Written) (c : SubClient) (out : Bytes)
      → Fits c
      → Returns LoopFits (send_loop ws sentlen last c out)
  unfolding send_loop
  send_loop-Fits [] sentlen last c out h =
      Returns-if LoopFits (length c.wbuf == 0) _ _ (λ _. h) (λ _. tt)
  send_loop-Fits (again ∷ ws) sentlen last c out h = h
  send_loop-Fits (failed ∷ ws) sentlen last c out h = h
  send_loop-Fits (wrote n ∷ ws) sentlen last c out h =
      let c' : SubClient = if sentlen + n == length c.wbuf then record c { wbuf = [] } else c in
      Returns-if LoopFits (length c.wbuf == 0) _ _ (λ _. h)
        (λ _.
          Returns-if LoopFits (n == 0) _ _ (λ _. h)
            (λ _. send_loop-Fits ws (sentlen + n) (wrote n) c' _ (
              if_both Fits (sentlen + n == length c.wbuf) (record c { wbuf = [] }) c (omega arith)
                h)))

  after_send-Fits : (s : Sent) → LoopFits s → Returns SentFits (after_send ev s)
  unfolding after_send
  after_send-Fits s h =
      elim s.nwritelen as (λ w. Returns SentFits (after_send ev (record s { nwritelen = w }))) [
        | again ↦ h
        | failed ↦ tt
        | wrote n ↦
            Returns-bind StatusFits SentFits
              (subcli_event_update ev s.client (without_write s.client.ev))
              (λ (_, c). ok (some c, s.out))
              (subcli_event_update-Fits s.client (without_write s.client.ev) h) (λ r h'. h')
      ]

  pub send_reply_to_subcli-Fits :
      (junk : Written) (ws : List Written) (c : SubClient)
      → Fits c
      → Returns SentFits (send_reply_to_subcli ev junk ws c)
  unfolding send_reply_to_subcli
  send_reply_to_subcli-Fits junk ws c h =
      Returns-bind LoopFits SentFits (send_loop ws 0 junk c []) (after_send ev)
        (send_loop-Fits ws 0 junk c [] h) after_send-Fits
