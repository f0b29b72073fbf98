-- ===== src/Random/Draw.antt =====
-- Which draw decides.
use mini_pubsub_broker.Base.{
  ℕ, ◌+◌, ◌*◌, ◌/◌, ◌%◌, ◌≤◌, ◌<◌, ◌≡◌, refl, ap, List, [], ◌∷◌, ◌++◌, le→ltb, lt→ltb, arith, ne→==,
}
use native.Mathlib.Nat.{mod-lt, div-add-mod}
use mini_pubsub_broker.Client.{ok, ◌>>=◌}
use mini_pubsub_broker.Random.{draw, tail_end, rand_below}

-- Draws behind a bound.
abbrev pub AllBehind : ℕ → List ℕ → Type 0
AllBehind r [] = Unit {0}
AllBehind r (t ∷ ts) = (r < t) × AllBehind r ts

draw-first :
    (r : ℕ) (skipped : List ℕ) (t : ℕ) (later : List ℕ)
    → AllBehind r skipped
    → t ≤ r
    → draw r (skipped ++ (t ∷ later)) ≡ ok t
unfolding draw
draw-first r [] t later h le = rw (le→ltb r t le) refl
draw-first r (s ∷ skipped) t later h le = rw (lt→ltb r s h.0) (draw-first r skipped t later h.1 le)

-- The draws up to the bound come in whole turns of `n`.
tail_end-multiple : (rmax n : ℕ) → 0 < n → n ≤ rmax → tail_end rmax n + 1 ≡ n * ((rmax + 1) / n)
tail_end-multiple rmax n some_n le =
    omega (arith, div-add-mod (rmax + 1) n, mod-lt (rmax + 1) some_n)

-- For a positive number up to `RAND_MAX`, the first draw that is not behind the last whole turn
-- decides: the result is its remainder, which is below the number, and the count of the draws up
-- to that bound is a multiple of the number.
pub rand_below-draw :
    (rmax n : ℕ) (skipped : List ℕ) (t : ℕ) (later : List ℕ)
    → 0 < n
    → n ≤ rmax
    → AllBehind (tail_end rmax n) skipped
    → t ≤ tail_end rmax n
    → (rand_below rmax n (skipped ++ (t ∷ later)) ≡ ok (t % n))
      × (t % n < n)
      × (tail_end rmax n + 1 ≡ n * ((rmax + 1) / n))
unfolding rand_below
rand_below-draw rmax n skipped t later some_n le behind within = (
  rw (ne→== n 0 (omega arith)) (
      ap (λ r. r >>= λ t. ok (t % n)) (draw-first (tail_end rmax n) skipped t later behind within)),
  mod-lt t some_n,
  tail_end-multiple rmax n some_n le,
)
