-- ===== src/Protocol/Terminates.antt =====
-- The read loop ends: each round takes a byte off the buffer, or is the last.
use mini_pubsub_broker.Base.{ℕ, zero, suc, ◌<◌, ◌≡◌, refl, ap, [], ◌∷◌, Bytes, length, arith}
use mini_pubsub_broker.Sds.{Sds}
use mini_pubsub_broker.Client.{
  Run, ok, fault, exit, out_of_fuel, ◌>>=◌, Status, subcli_ok, subcli_err, SubClient,
}
use mini_pubsub_broker.Protocol.ReadLoop.{go_on, read_round, read_loop}
use mini_pubsub_broker.Protocol.Shrinks.{Shrinks, process_buffer-Shrinks}

-- A run that returns or goes wrong in memory, and neither exits nor runs out of fuel.
abbrev pub Ends {ℓ} : {A : Type ℓ} → Run A → Type 0
Ends (ok a) = Unit {0}
Ends fault = Unit {0}
Ends exit = ⊥
Ends out_of_fuel = ⊥

go_on-Ends :
    (buf : Bytes) (next : SubClient → Run SubClient) (r : Run (Status × SubClient))
    → Shrinks buf r
    → ((c : SubClient) → length c.read_buf < length buf → Ends (next c))
    → Ends (r >>= go_on next)
unfolding go_on
go_on-Ends buf next (ok (subcli_ok, c)) s ih = ih c s
go_on-Ends buf next (ok (subcli_err, c)) s ih = tt
go_on-Ends buf next fault s ih = tt
go_on-Ends buf next exit s ih = s
go_on-Ends buf next out_of_fuel s ih = s

module _ (lib : Sds) where
  read_round-Ends :
      (c : SubClient) (buf : Bytes) (next : SubClient → Run SubClient)
      → c.read_buf ≡ buf
      → ((c' : SubClient) → length c'.read_buf < length buf → Ends (next c'))
      → Ends (read_round lib next c buf)
  unfolding read_round
  read_round-Ends c [] next e ih = tt
  read_round-Ends c (b ∷ s) next e ih =
      go_on-Ends c.read_buf next _
        (process_buffer-Shrinks lib c b (omega (arith, ap (length {0}) e)))
        λ c' h. ih c' (omega (arith, ap (length {0}) e))

  -- With more rounds than bytes in the buffer, the read loop ends: it neither runs for ever nor
  -- comes to its call of `exit`.
  pub read_loop-Ends :
      (fuel : ℕ) (c : SubClient) → length c.read_buf < fuel → Ends (read_loop lib fuel c)
  unfolding read_loop
  read_loop-Ends zero c h = absurd (omega arith)
  read_loop-Ends (suc fuel) c h =
      read_round-Ends c c.read_buf (read_loop lib fuel) refl
        λ c' shorter. read_loop-Ends fuel c' (omega arith)
