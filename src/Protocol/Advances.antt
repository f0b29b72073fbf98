-- ===== src/Protocol/Advances.antt =====
-- The loop over bulks leaves the buffer alone and only moves forward in it.
use mini_pubsub_broker.Base.{
  ℕ, zero, suc, ◌+◌, ◌-◌, ◌≤◌, ◌<◌, ◌≡◌, refl, ◌≢◌, ◌⊎◌, inl, inr, Option, none, some, Bytes,
  length, ltb, arith, Bool-cases,
}
use mini_pubsub_broker.Sds.{Sds}
use mini_pubsub_broker.Client.{Run, ok, fault, exit, out_of_fuel, SubClient, push_arg}
use mini_pubsub_broker.Protocol.Multibulk.{
  Header, incomplete, too_big, malformed, bulk, bulk_length, header_line, find_line, read_header,
  LoopEnd, left, protocol_error, read_bulk, after_header, bulk_round, bulk_loop,
}

-- From offset `p` with `n` bulks to come, the loop leaves the buffer alone and ends where it began
-- or later; if no bulk is left to come, each of them took a byte at least.
abbrev pub Advances : Bytes → ℕ → ℕ → Run LoopEnd → Type 0
Advances buf n p (ok (left p' c)) =
    (c.read_buf ≡ buf) × (p ≤ p') × ((c.multi_bulk_len ≢ 0) ⊎ (p + n ≤ p'))
Advances buf n p (ok (protocol_error c)) = Unit {0}
Advances buf n p fault = Unit {0}
Advances buf n p exit = ⊥
Advances buf n p out_of_fuel = ⊥

header_line-bulk :
    (buf : Bytes) (p newline len p' : ℕ)
    → header_line buf p newline ≡ bulk len p'
    → p' ≡ newline + 2
unfolding header_line bulk_length
header_line-bulk buf p newline len p' h = ground arith

read_header-bulk : (buf : Bytes) (p len p' : ℕ) → read_header buf p ≡ bulk len p' → p < p'
unfolding read_header find_line
read_header-bulk buf p len p' h = ground (arith, header_line-bulk buf p)

Advances-mono :
    (buf : Bytes) (n p q : ℕ) (r : Run LoopEnd)
    → q < p
    → Advances buf n p r
    → Advances buf (suc n) q r
Advances-mono buf n p q (ok (left p' c)) h a = ground arith
Advances-mono buf n p q (ok (protocol_error c)) h a = tt
Advances-mono buf n p q fault h a = tt
Advances-mono buf n p q exit h a = a
Advances-mono buf n p q out_of_fuel h a = a

module _ (lib : Sds) where
  -- What the loop behind a bulk does.
  abbrev pub NextAdvances : ℕ → Type 0
  NextAdvances n =
      (p : ℕ) (c : SubClient) → c.multi_bulk_len ≡ n → Advances c.read_buf n p (bulk_loop lib n p c)

  read_bulk-Advances :
      (n p q len : ℕ) (c : SubClient)
      → c.multi_bulk_len ≡ suc n
      → q ≤ p
      → NextAdvances n
      → Advances c.read_buf (suc n) q (read_bulk lib (bulk_loop lib n) n p len c)
  unfolding read_bulk push_arg
  read_bulk-Advances n p q len c em h ih = elim (Bool-cases (ltb (length c.read_buf) p)) [
    | inl past ↦ rw past tt
    | inr inside ↦ rw inside (elim (Bool-cases (ltb (length c.read_buf - p) (len + 2))) [
      | inl short ↦ rw short (refl, h, inl (omega arith))
      | inr whole ↦ rw whole (elim (Bool-cases (ltb c.argc (length c.argv))) [
        | inl room ↦ rw room (
            Advances-mono c.read_buf n (p + (len + 2)) q _ (omega arith)
              (ih (p + (len + 2)) _ refl))
        | inr full ↦ rw full tt
      ])
    ])
  ]

  after_header-Advances :
      (n p : ℕ) (c : SubClient) (h : Header)
      → c.multi_bulk_len ≡ suc n
      → ((len p' : ℕ) → h ≡ bulk len p' → p < p')
      → NextAdvances n
      → Advances c.read_buf (suc n) p (after_header lib (bulk_loop lib n) n p c h)
  unfolding after_header
  after_header-Advances n p c incomplete em later ih = (refl, omega arith, inl (omega arith))
  after_header-Advances n p c too_big em later ih = tt
  after_header-Advances n p c malformed em later ih = tt
  after_header-Advances n p c (bulk len p') em later ih =
      read_bulk-Advances n p' p len c em (omega (arith, later len p' refl)) ih

  bulk_round-Advances :
      (n p : ℕ) (c : SubClient) (len : Option ℕ)
      → c.multi_bulk_len ≡ suc n
      → NextAdvances n
      → Advances c.read_buf (suc n) p (bulk_round lib (bulk_loop lib n) n p c len)
  unfolding bulk_round
  bulk_round-Advances n p c (some len) em ih = read_bulk-Advances n p p len c em (omega arith) ih
  bulk_round-Advances n p c none em ih = elim (Bool-cases (ltb (length c.read_buf) p)) [
    | inl past ↦ rw past tt
    | inr inside ↦ rw inside (
        after_header-Advances n p c (read_header c.read_buf p) em (read_header-bulk c.read_buf p)
          ih)
  ]

  pub bulk_loop-Advances : (n : ℕ) → NextAdvances n
  unfolding bulk_loop
  bulk_loop-Advances zero p c em = (refl, omega arith, inr (omega arith))
  bulk_loop-Advances (suc n) p c em = bulk_round-Advances n p c c.bulk_len em (bulk_loop-Advances n)
