-- ===== src/Tests/Line.antt =====
-- Lines with either end.
use mini_pubsub_broker.Base.{ℕ, ◌≡◌, refl, [], ◌∷◌, ◌++◌, Bytes, codes, arith}
use mini_pubsub_broker.Libc.{cr, lf, byte_at}
use mini_pubsub_broker.Samples.{sds}
use mini_pubsub_broker.Client.{ok, subcli_ok}
use mini_pubsub_broker.Protocol.Inline.{process_inline_buffer}
use mini_pubsub_broker.Protocol.Line.{behind, process_inline_buffer-crlf, process_inline_buffer-lf}
use mini_pubsub_broker.Tests.Client.{client}

abbrev ended : Bytes
ended = codes "ping" ++ (cr ∷ lf ∷ codes "more")

process_inline_buffer-crlf_example :
    (e : ℕ) × (process_inline_buffer sds (client ended)
      ≡ ok (subcli_ok, behind (client ended) (codes "ping" ∷ []) e (codes "more")))
process_inline_buffer-crlf_example =
    process_inline_buffer-crlf sds (client ended) (codes "ping") (codes "more") (codes "ping" ∷ [])
      refl (omega arith) refl

abbrev ended_by_lf : Bytes
ended_by_lf = codes "ping" ++ (lf ∷ codes "more")

process_inline_buffer-lf_example :
    (e : ℕ) × (process_inline_buffer sds (client ended_by_lf)
      ≡ ok (subcli_ok, behind (client ended_by_lf) (codes "ping" ∷ []) e (codes "ore")))
unfolding byte_at
process_inline_buffer-lf_example =
    process_inline_buffer-lf sds (client ended_by_lf) (codes "ping") (codes "ore") b'm'
      (codes "ping" ∷ []) refl (omega arith) (omega arith) refl
