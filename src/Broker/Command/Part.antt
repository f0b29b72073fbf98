-- ===== src/Broker/Command/Part.antt =====
-- What becomes of a request whose arguments do not come in one read.
use mini_pubsub_broker.Base.{ℕ, suc, ◌+◌, ◌≤◌, ◌<◌, ◌≡◌, ap, ◌∙◌, List, Bytes, length, arith}
use mini_pubsub_broker.Client.{◌>>=◌, SubClient, sub_read_buf_len, max_inline_read}
use mini_pubsub_broker.Protocol.Encode.{FitBulks}
use mini_pubsub_broker.Protocol.Request.{IsIdle}
use mini_pubsub_broker.Protocol.ReadLoop.{read_loop}
use mini_pubsub_broker.Protocol.Pipeline.{multibulk}
use mini_pubsub_broker.Protocol.Partial.{encode_part, part_held, read_loop-part}
use mini_pubsub_broker.Broker.{Libraries, Server}
use mini_pubsub_broker.Broker.Command.{
  process_command, run_requested, process_sub_read_buf, reset_after,
}

module _ (libs : Libraries) where
  open libs use {sds}

  -- When the first read on a connection between two requests holds the count of a request and some,
  -- not all, of its arguments, whole, the command is run on the arguments that have come, and the
  -- request is forgotten behind it.
  pub process_sub_read_buf-part :
      (srv : Server libs) (p : ℕ) (c : SubClient) (args : List Bytes) (m : ℕ)
      → IsIdle c
      → c.read_buf ≡ encode_part (length args + suc m) args
      → 0 < length args
      → length args + suc m ≤ sub_read_buf_len
      → length c.read_buf ≤ max_inline_read
      → FitBulks args
      → process_sub_read_buf libs srv p c
        ≡ (process_command libs srv p (part_held (multibulk c) args m) >>= reset_after libs)
  unfolding process_sub_read_buf run_requested
  process_sub_read_buf-part srv p c args m idle e some_args fit small fits =
      ap (λ (n : ℕ). read_loop sds n c >>= run_requested libs srv p) {y = suc (length c.read_buf)}
        (omega arith)
      ∙ ap (λ r. r >>= run_requested libs srv p)
          (read_loop-part sds (length c.read_buf) c args m idle e fit small fits)
      ∙ ground arith
