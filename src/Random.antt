-- ===== src/Random.antt =====
-- `rand_int64` of src/util.c for a number up to `RAND_MAX`, over what `rand` yields.
pub mod Draw
use mini_pubsub_broker.Base.{ℕ, ◌+◌, ◌-◌, ◌%◌, List, [], ◌∷◌, ltb, ◌==◌, if◌then◌else◌}
use mini_pubsub_broker.Client.{Run, ok, fault, out_of_fuel, ◌>>=◌}

-- The first draw up to a bound; the draws are given.
unfoldable pub draw : ℕ → List ℕ → Run ℕ
draw r [] = out_of_fuel
draw r (t ∷ ts) = let rest = draw r ts in if ltb r t then rest else ok t

-- `rmax - (rmax + 1) % n`.
abbrev pub tail_end : (rmax n : ℕ) → ℕ
tail_end rmax n = rmax - (rmax + 1) % n

-- The branch for `n <= RAND_MAX`; the division by 0 is a fault.
unfoldable pub rand_below : (rmax n : ℕ) → List ℕ → Run ℕ
unfolding draw
rand_below rmax n draws =
    if n == 0 then fault else (draw (tail_end rmax n) draws >>= λ t. ok (t % n))
