-- ===== src/Protocol/Pipeline.antt =====
-- The read loop over one whole request, and over two that have come in one read.
use mini_pubsub_broker.Base.{ℕ, suc, ◌≤◌, ◌<◌, ◌≡◌, refl, ap, ◌∙◌, List, [], Bytes, length}
use mini_pubsub_broker.Sds.{Sds}
use mini_pubsub_broker.Client.{ok, fault, ◌>>=◌, sub_read_buf_len, req_multibulk, SubClient}
use mini_pubsub_broker.Client.Create.{Origin, created, sub_cli_create, sub_cli_create-created}
use mini_pubsub_broker.Protocol.Multibulk.{process_multibulk_buffer}
use mini_pubsub_broker.Protocol.ReadLoop.{
  request_type, process_buffer, go_on, read_round, read_loop,
}
use mini_pubsub_broker.Protocol.Encode.{encode, FitBulks}
use mini_pubsub_broker.Protocol.Request.{
  IsIdle, requested, process_multibulk_buffer-encode, process_multibulk_buffer-overflow,
}

-- A connection whose next request is in the multi bulk form.
abbrev pub multibulk : SubClient → SubClient
multibulk c = record c { req_type = req_multibulk }

module _ (lib : Sds) where
  read_loop-encode :
      (f : ℕ) (c : SubClient) (args : List Bytes) (rest : Bytes)
      → c.read_buf ≡ encode args rest
      → read_loop lib (suc f) c
        ≡ process_multibulk_buffer lib (multibulk c) >>= go_on (read_loop lib f)
  unfolding read_loop read_round process_buffer request_type encode
  read_loop-encode f c args rest e = ap (read_round lib (read_loop lib f) c) e

  -- One whole request is read, and the loop ends with its arguments held.
  pub read_loop-request :
      (f : ℕ) (c : SubClient) (args : List Bytes)
      → IsIdle c
      → c.read_buf ≡ encode args []
      → 0 < length args
      → length args ≤ sub_read_buf_len
      → FitBulks args
      → read_loop lib (suc (suc f)) c ≡ ok (requested (multibulk c) args [])
  unfolding read_loop read_round go_on
  read_loop-request f c args idle e some_args fit fits =
      read_loop-encode (suc f) c args [] e
      ∙ ap (λ r. r >>= go_on (read_loop lib (suc f)))
          (process_multibulk_buffer-encode lib (multibulk c) args []
            (record {
              no_args = idle.no_args;
              no_count = idle.no_count;
              no_length = idle.no_length;
            })
            e some_args fit fits)

  -- Of two requests that have come in one read, none is run: the loop reads the second one before
  -- the first is run, and writes behind the end of the argument vector.
  pub read_loop-pipelined :
      (f : ℕ) (c : SubClient) (args args' : List Bytes) (rest : Bytes)
      → IsIdle c
      → c.read_buf ≡ encode args (encode args' rest)
      → 0 < length args
      → length args ≤ sub_read_buf_len
      → FitBulks args
      → 0 < length args'
      → length args' ≤ sub_read_buf_len
      → FitBulks args'
      → read_loop lib (suc (suc f)) c ≡ fault
  unfolding go_on
  read_loop-pipelined f c args args' rest idle e p1 fit1 fits1 p2 fit2 fits2 =
      let c' = requested (multibulk c) args (encode args' rest) in
      read_loop-encode (suc f) c args (encode args' rest) e
      ∙ ap (λ r. r >>= go_on (read_loop lib (suc f)))
          (process_multibulk_buffer-encode lib (multibulk c) args (encode args' rest)
            (record {
              no_args = idle.no_args;
              no_count = idle.no_count;
              no_length = idle.no_length;
            })
            e p1 fit1 fits1)
      ∙ read_loop-encode f c' args' rest refl
      ∙ ap (λ r. r >>= go_on (read_loop lib f))
          (process_multibulk_buffer-overflow lib (multibulk c') args' rest p1 refl refl refl p2 fit2
            fits2)

  -- A new connection whose memory held a positive `argc` writes behind the end of the argument
  -- vector of its first request.
  pub read_loop-created :
      (f fd n : ℕ) (o : Origin) (args : List Bytes) (rest : Bytes)
      → 0 < o.junk.argc
      → 0 < length args
      → length args ≤ sub_read_buf_len
      → FitBulks args
      → (sub_cli_create o fd n >>= λ c.
          read_loop lib (suc f) (record c { read_buf = encode args rest }))
        ≡ fault
  unfolding go_on
  read_loop-created f fd n o args rest held some_args fit fits =
      let (id, e, _) = sub_cli_create-created o fd n in
      let c : SubClient = record (created o fd id) { read_buf = encode args rest } in
      ap
        (λ r.
          r >>= λ (k : SubClient). read_loop lib (suc f) (record k { read_buf = encode args rest }))
        e
      ∙ read_loop-encode f c args rest refl
      ∙ ap (λ r. r >>= go_on (read_loop lib f))
          (process_multibulk_buffer-overflow lib (multibulk c) args rest held refl refl refl
            some_args fit fits)
