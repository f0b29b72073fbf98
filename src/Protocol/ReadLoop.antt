-- ===== src/Protocol/ReadLoop.antt =====
-- The loop of `process_sub_read_buf`: requests are read as long as the buffer holds bytes.
use mini_pubsub_broker.Base.{ℕ, zero, suc, [], ◌∷◌, Bytes, ◌==◌, if◌then◌else◌}
use mini_pubsub_broker.Sds.{Sds}
use mini_pubsub_broker.Client.{
  Run, ok, exit, out_of_fuel, ◌>>=◌, Status, subcli_ok, subcli_err, req_inline, req_multibulk,
  SubClient,
}
use mini_pubsub_broker.Protocol.Multibulk.{process_multibulk_buffer}
use mini_pubsub_broker.Protocol.Inline.{process_inline_buffer}

-- The form of a request by its first byte.
unfoldable pub request_type : ℕ → ℕ
request_type b = if b == b'*' then req_multibulk else req_inline

-- `break` at an error, and another round else.
unfoldable pub go_on : (SubClient → Run SubClient) → Status × SubClient → Run SubClient
go_on next (subcli_ok, c) = next c
go_on next (subcli_err, c) = ok c

module _ (lib : Sds) where
  unfoldable pub process_buffer : SubClient → Run (Status × SubClient)
  process_buffer c =
      if c.req_type == req_inline
      then process_inline_buffer lib c
      else if c.req_type == req_multibulk
      then process_multibulk_buffer lib c
      else exit

  unfoldable pub read_round : (SubClient → Run SubClient) → SubClient → Bytes → Run SubClient
  unfolding go_on process_buffer request_type
  read_round next c [] = ok c
  read_round next c (b ∷ _) = process_buffer (record c { req_type = request_type b }) >>= go_on next

  -- `while (sdslen(c->read_buf))`.
  unfoldable pub read_loop : ℕ → SubClient → Run SubClient
  unfolding read_round
  read_loop zero c = out_of_fuel
  read_loop (suc fuel) c = read_round (read_loop fuel) c c.read_buf
