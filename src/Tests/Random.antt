-- ===== src/Tests/Random.antt =====
-- A draw behind the last whole turn, and one within it.
use mini_pubsub_broker.Base.{◌+◌, ◌*◌, ◌/◌, ◌%◌, ◌<◌, ◌≡◌, [], ◌∷◌, arith}
use mini_pubsub_broker.Client.{ok}
use mini_pubsub_broker.Random.{tail_end, rand_below}
use mini_pubsub_broker.Random.Draw.{rand_below-draw}

-- Numbers below 1000, with `RAND_MAX` 32767.
rand_below-draw_example :
    (rand_below 32767 1000 (32500 ∷ 31999 ∷ []) ≡ ok (31999 % 1000))
    × (31999 % 1000 < 1000)
    × (tail_end 32767 1000 + 1 ≡ 1000 * ((32767 + 1) / 1000))
rand_below-draw_example =
    rand_below-draw 32767 1000 (32500 ∷ []) 31999 [] (omega arith) (omega arith) (omega arith, tt)
      (omega arith)
