-- ===== src/Tests/Protocol.antt =====
-- The parser at concrete requests, with an instance of the string library.
use mini_pubsub_broker.Base.{◌≡◌, refl, List, [], ◌∷◌, Bytes, arith}
use mini_pubsub_broker.Libc.{lf}
use mini_pubsub_broker.Samples.{sds}
use mini_pubsub_broker.Tests.Client.{client, client-IsIdle}
use mini_pubsub_broker.Client.{ok, fault, subcli_ok, ◌>>=◌}
use mini_pubsub_broker.Client.Create.{Origin, sub_cli_create}
use mini_pubsub_broker.Protocol.Multibulk.{process_multibulk_buffer}
use mini_pubsub_broker.Protocol.ReadLoop.{read_loop}
use mini_pubsub_broker.Protocol.Encode.{encode}
use mini_pubsub_broker.Protocol.Request.{requested, process_multibulk_buffer-encode}
use mini_pubsub_broker.Protocol.Pipeline.{
  multibulk, read_loop-request, read_loop-pipelined, read_loop-created,
}
use mini_pubsub_broker.Protocol.Terminates.{Ends, read_loop-Ends}

abbrev ping : List Bytes
ping = (b'P' ∷ b'I' ∷ b'N' ∷ b'G' ∷ []) ∷ []

process_multibulk_buffer-encode_example :
    process_multibulk_buffer sds (client (encode ping (b'x' ∷ [])))
    ≡ ok (subcli_ok, requested (client (encode ping (b'x' ∷ []))) ping (b'x' ∷ []))
process_multibulk_buffer-encode_example =
    process_multibulk_buffer-encode sds (client (encode ping (b'x' ∷ []))) ping (b'x' ∷ [])
      (client-IsIdle _) refl (omega arith) (omega arith) (omega arith, tt)

read_loop-request_example :
    read_loop sds 2 (client (encode ping []))
    ≡ ok (requested (multibulk (client (encode ping []))) ping [])
read_loop-request_example =
    read_loop-request sds 0 (client (encode ping [])) ping (client-IsIdle _) refl (omega arith)
      (omega arith) (omega arith, tt)

read_loop-pipelined_example : read_loop sds 2 (client (encode ping (encode ping []))) ≡ fault
read_loop-pipelined_example =
    read_loop-pipelined sds 0 (client (encode ping (encode ping []))) ping ping [] (client-IsIdle _)
      refl (omega arith) (omega arith) (omega arith, tt) (omega arith) (omega arith)
      (omega arith, tt)

read_loop-Ends_example : Ends (read_loop sds 4 (client (b'a' ∷ b'b' ∷ lf ∷ [])))
read_loop-Ends_example = read_loop-Ends sds 4 (client (b'a' ∷ b'b' ∷ lf ∷ [])) (omega arith)

-- Memory that held a 3 at the place of `argc`.
abbrev origin : Origin
origin = record {
  junk = record (client []) { argc = 3 };
  memory = λ i. i;
  tv_sec = 1700000000;
  pid = 4242;
}

read_loop-created_example :
    (sub_cli_create origin 5 1 >>= λ c. read_loop sds 1 (record c { read_buf = encode ping [] }))
    ≡ fault
read_loop-created_example =
    read_loop-created sds 0 5 1 origin ping [] (omega arith) (omega arith) (omega arith)
      (omega arith, tt)
