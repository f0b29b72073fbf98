-- ===== src/Protocol/Inline.antt =====
-- `process_inline_buffer`: one line, split into arguments.
use mini_pubsub_broker.Base.{
  ℕ, ◌+◌, ◌-◌, ◌&&◌, Option, none, some, List, [], ◌∷◌, Bytes, length, replicate, ltb, ◌==◌,
  if◌then◌else◌, pos, negsuc,
}
use mini_pubsub_broker.Libc.{cr, lf, strchr, c_string, byte_at}
use mini_pubsub_broker.Sds.{Sds}
use mini_pubsub_broker.Client.{
  Run, ok, ◌>>=◌, Status, subcli_ok, subcli_err, sub_read_buf_len, SubClient, push_arg,
}
use mini_pubsub_broker.Protocol.Multibulk.{set_protocol_err}

module _ (lib : Sds) where
  -- The loop over the split arguments: empty ones are dropped, and the others are copied up to
  -- their first NUL.
  unfoldable pub copy_args : List Bytes → SubClient → Run SubClient
  copy_args [] c = ok c
  copy_args ([] ∷ args) c = copy_args args c
  copy_args ((b ∷ s) ∷ args) c = do
    c' ← push_arg (lib.sdsnewlen (b ∷ s) (length (c_string (b ∷ s)))) c
    copy_args args c'

  -- The line without its `\r`, if it has one.
  unfoldable pub query_len : Bytes → ℕ → ℕ
  query_len buf newline =
      if ltb 0 newline && byte_at buf (newline - 1) == cr then newline - 1 else newline

  unfoldable pub process_line : SubClient → ℕ → Option (List Bytes) → Run (Status × SubClient)
  unfolding copy_args
  process_line c querylen none = ok (subcli_err, set_protocol_err lib c 0)
  process_line c querylen (some args) = do
    c' ← copy_args args (record c {
      read_buf = lib.sdsrange c.read_buf (pos (querylen + 2)) (negsuc 0);
      argc = 0;
      argv = replicate (length args) none;
    })
    ok (subcli_ok, c')

  unfoldable pub find_end : SubClient → Option ℕ → Run (Status × SubClient)
  unfolding process_line query_len
  find_end c none =
      ok (
        subcli_err,
        if ltb sub_read_buf_len (length c.read_buf) then set_protocol_err lib c 0 else c,
      )
  find_end c (some newline) =
      let querylen = query_len c.read_buf newline in
      process_line c querylen (lib.sdssplitargs (lib.sdsnewlen c.read_buf querylen))

  unfoldable pub process_inline_buffer : SubClient → Run (Status × SubClient)
  unfolding find_end
  process_inline_buffer c = find_end c (strchr c.read_buf lf)
