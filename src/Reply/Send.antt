-- ===== src/Reply/Send.antt =====
-- `send_reply_to_subcli`: the write buffer goes out in as many calls of `write` as it takes.
use mini_pubsub_broker.Base.{
  ℕ, zero, suc, ◌+◌, ◌<◌, ◌≡◌, refl, ap, ◌∙◌, sym, true, false, Option, none, some, List, [], ◌∷◌,
  ◌++◌, map, Bytes, length, take, drop, ◌==◌, if◌then◌else◌, arith, ne→==,
}
use mini_pubsub_broker.Libevent.{Libevent}
use mini_pubsub_broker.Client.{Run, ok, out_of_fuel, ◌>>=◌, SubClient, Events}
use mini_pubsub_broker.Reply.{subcli_event_update}

-- What a call of `write` returns: a count, -1 with `EAGAIN`, or -1 with another error.
pub data Written : Type 0 where
  wrote : ℕ → Written
  again : Written
  failed : Written

-- What the loop leaves: the last result of `write`, the connection, and the bytes that went out.
pub record Sent : Type 0 where
  pub nwritelen : Written
  pub client : SubClient
  pub out : Bytes

-- `while (c->wbufpos > 0)`, over the results of the calls of `write`; `sentlen` bytes have gone out.
unfoldable pub send_loop : List Written → ℕ → Written → SubClient → Bytes → Run Sent
send_loop [] sentlen last c out =
    if length c.wbuf == 0
    then ok (record { nwritelen = last; client = c; out = out })
    else out_of_fuel
send_loop (again ∷ ws) sentlen last c out =
    ok (record { nwritelen = if length c.wbuf == 0 then last else again; client = c; out = out })
send_loop (failed ∷ ws) sentlen last c out =
    ok (record { nwritelen = if length c.wbuf == 0 then last else failed; client = c; out = out })
send_loop (wrote n ∷ ws) sentlen last c out =
    let sentlen' = sentlen + n in
    let c' = if sentlen' == length c.wbuf then record c { wbuf = [] } else c in
    let rest = send_loop ws sentlen' (wrote n) c' (out ++ take n (drop sentlen c.wbuf)) in
    if length c.wbuf == 0
    then ok (record { nwritelen = last; client = c; out = out })
    else if n == 0
    then ok (record { nwritelen = wrote 0; client = c; out = out })
    else rest

abbrev pub without_write : Events → Events
without_write e = record { ev_read = e.ev_read; ev_write = false; ev_persist = e.ev_persist }

-- What follows the loop: the connection, or `none` when it is released, with what went out.
unfoldable pub after_send : Libevent → Sent → Run (Option SubClient × Bytes)
unfolding subcli_event_update
after_send ev s = elim s.nwritelen [
  | again ↦ ok (some s.client, s.out)
  | failed ↦ ok (none, s.out)
  | wrote _ ↦
      subcli_event_update ev s.client (without_write s.client.ev) >>= λ (_, c). ok (some c, s.out)
]

-- `junk` is what `nwritelen` holds before the first call of `write`.
unfoldable pub send_reply_to_subcli :
    Libevent → Written → List Written → SubClient → Run (Option SubClient × Bytes)
unfolding send_loop after_send
send_reply_to_subcli ev junk ws c = send_loop ws 0 junk c [] >>= after_send ev

-- The bytes of several writes, none of them empty.
unfoldable pub total : List ℕ → ℕ
total [] = 0
total (n ∷ ns) = n + total ns

abbrev pub AllPositive : List ℕ → Type 0
AllPositive [] = Unit {0}
AllPositive (n ∷ ns) = (0 < n) × AllPositive ns

take-nil : (n : ℕ) → ◌≡◌ {A = Bytes} (take n []) []
take-nil zero = refl
take-nil (suc n) = refl

take-take-drop : (m n : ℕ) (s : Bytes) → take m s ++ take n (drop m s) ≡ take (m + n) s
take-take-drop zero n s = ap (λ (k : ℕ). take k s) (omega arith)
take-take-drop (suc m) n [] = take-nil n ∙ sym (take-nil (suc m + n))
take-take-drop (suc m) n (b ∷ s) =
    ap (λ r. b ∷ r) (take-take-drop m n s)
    ∙ ap (λ (k : ℕ). take k (b ∷ s)) {x = suc (m + n)} (omega arith)

take-all : (n : ℕ) (s : Bytes) → n ≡ length s → take n s ≡ s
take-all zero [] h = refl
take-all zero (b ∷ s) h = absurd (omega arith)
take-all (suc n) [] h = refl
take-all (suc n) (b ∷ s) h = ap (λ r. b ∷ r) (take-all n s (omega arith))

-- One write that takes a part of what is left.
send_loop-wrote :
    (n : ℕ) (ws : List Written) (sentlen : ℕ) (last : Written) (c : SubClient)
    → 0 < n
    → sentlen + n < length c.wbuf
    → send_loop (wrote n ∷ ws) sentlen last c (take sentlen c.wbuf)
      ≡ send_loop ws (sentlen + n) (wrote n) c (take (sentlen + n) c.wbuf)
unfolding send_loop
send_loop-wrote n ws sentlen last c p h = rw (
  ne→== (length c.wbuf) 0 (omega arith),
  ne→== n 0 (omega arith),
  ne→== (sentlen + n) (length c.wbuf) (omega arith),
  take-take-drop sentlen n c.wbuf,
)

-- The write that takes all that is left.
send_loop-last :
    (n sentlen : ℕ) (last : Written) (c : SubClient)
    → 0 < n
    → sentlen + n ≡ length c.wbuf
    → send_loop (wrote n ∷ []) sentlen last c (take sentlen c.wbuf)
      ≡ ok (record { nwritelen = wrote n; client = record c { wbuf = [] }; out = c.wbuf })
unfolding send_loop
send_loop-last n sentlen last c p h =
    ground (arith, take-take-drop sentlen n c.wbuf, take-all (sentlen + n) c.wbuf)

pub send_loop-partly :
    (ns : List ℕ) (ws : List Written) (sentlen : ℕ) (last : Written) (c : SubClient)
    → AllPositive ns
    → sentlen + total ns < length c.wbuf
    → send_loop (map wrote ns ++ again ∷ ws) sentlen last c (take sentlen c.wbuf)
      ≡ ok (record { nwritelen = again; client = c; out = take (sentlen + total ns) c.wbuf })
unfolding send_loop total
send_loop-partly [] ws sentlen last c p h =
    ground (arith, ap (λ (k : ℕ). take k c.wbuf) {x = sentlen} {y = sentlen + 0} (omega arith))
send_loop-partly (n ∷ ns) ws sentlen last c p h =
    send_loop-wrote n (map wrote ns ++ again ∷ ws) sentlen last c p.0 (omega arith)
    ∙ send_loop-partly ns ws (sentlen + n) (wrote n) c p.1 (omega arith)
    ∙ ap (λ (k : ℕ). ok (record { nwritelen = again; client = c; out = take k c.wbuf }))
        (omega arith)

-- What is left when every byte has gone out.
abbrev Emptied : SubClient → Run Sent → Type 0
Emptied c r =
    (n : ℕ) × (r
      ≡ ok (record { nwritelen = wrote n; client = record c { wbuf = [] }; out = c.wbuf }))

send_loop-all :
    (n : ℕ) (ns : List ℕ) (sentlen : ℕ) (last : Written) (c : SubClient)
    → AllPositive (n ∷ ns)
    → sentlen + total (n ∷ ns) ≡ length c.wbuf
    → Emptied c (send_loop (map wrote (n ∷ ns)) sentlen last c (take sentlen c.wbuf))
unfolding total
send_loop-all n [] sentlen last c p h = (n, send_loop-last n sentlen last c p.0 (omega arith))
send_loop-all n (m ∷ ns) sentlen last c p h =
    let (k, e) = send_loop-all m ns (sentlen + n) (wrote n) c p.1 (omega arith) in
    (k, send_loop-wrote n (map wrote (m ∷ ns)) sentlen last c p.0 (omega (arith, p.1.0)) ∙ e)

module _ (ev : Libevent) where
  -- When the writes add up to the buffer, exactly its bytes go out, in order, the buffer is empty,
  -- and the socket is no longer watched for writing.
  pub send_reply_to_subcli-all :
      (junk : Written) (n : ℕ) (ns : List ℕ) (c : SubClient)
      → AllPositive (n ∷ ns)
      → total (n ∷ ns) ≡ length c.wbuf
      → ev.event_new c.fd (without_write c.ev) ≡ true
      → ev.event_add c.fd (without_write c.ev) ≡ true
      → send_reply_to_subcli ev junk (map wrote (n ∷ ns)) c
        ≡ ok (some (record c { wbuf = []; ev = without_write c.ev; ev_pending = true }), c.wbuf)
  unfolding send_reply_to_subcli after_send subcli_event_update
  send_reply_to_subcli-all junk n ns c p h new add =
      let (k, e) = send_loop-all n ns 0 junk c p (omega arith) in
      ap (λ r. r >>= after_send ev) e ∙ ground arith

  -- When the socket blocks after a part of the buffer, what went out is not taken off the buffer:
  -- the connection is as it was, so the next call sends the same bytes again.
  pub send_reply_to_subcli-again :
      (junk : Written) (ns : List ℕ) (ws : List Written) (c : SubClient)
      → AllPositive ns
      → total ns < length c.wbuf
      → send_reply_to_subcli ev junk (map wrote ns ++ again ∷ ws) c
        ≡ ok (some c, take (total ns) c.wbuf)
  unfolding send_reply_to_subcli after_send
  send_reply_to_subcli-again junk ns ws c p h =
      ap (λ r. r >>= after_send ev) (send_loop-partly ns ws 0 junk c p (omega arith))
      ∙ ap (λ (k : ℕ). ok (some c, take k c.wbuf)) (omega arith)
