-- ===== src/Reply/Error.antt =====
-- An error reply is one line.
use mini_pubsub_broker.Base.{
  ℕ, suc, ◌≡◌, ◌≢◌, refl, ap, ◌∙◌, [], ◌∷◌, ◌++◌, map, Bytes, length, arith, ◌+◌, ◌≤◌,
}
use mini_pubsub_broker.Libc.{cr, lf, c_string, c_string-c_string}
use mini_pubsub_broker.Sds.{Sds}
use mini_pubsub_broker.Libevent.{Libevent}
use mini_pubsub_broker.Client.{ok, sub_write_buf_len, SubClient}
use mini_pubsub_broker.Reply.{
  crlf, err_prefix, add_reply, add_reply_string, no_newline, add_reply_error_length,
  add_reply_error_fmt,
}
use mini_pubsub_broker.Reply.Buffer.{IsSound, CanWrite, armed, with_wbuf, add_reply-line_fits}

-- No byte is a line end.
abbrev pub OneLine : Bytes → Type 0
OneLine [] = Unit {0}
OneLine (b ∷ s) = (b ≢ cr) × (b ≢ lf) × OneLine s

no_newline-OneLine : (s : Bytes) → OneLine (map no_newline s)
unfolding no_newline
no_newline-OneLine [] = tt
no_newline-OneLine (b ∷ s) = (ground arith, ground arith, no_newline-OneLine s)

-- What becomes of a text in an error reply: its line ends are spaces, and its other bytes are as they
-- were.
abbrev pub Cleaned : Bytes → Bytes → Type 0
Cleaned [] [] = Unit {0}
Cleaned [] (d ∷ s) = ⊥
Cleaned (b ∷ text) [] = ⊥
Cleaned (b ∷ text) (d ∷ s) =
    ((b ≡ cr) → d ≡ b' ') × ((b ≡ lf) → d ≡ b' ') × (b ≢ cr → b ≢ lf → d ≡ b) × Cleaned text s

no_newline-Cleaned : (text : Bytes) → Cleaned text (map no_newline text)
unfolding no_newline
no_newline-Cleaned [] = tt
no_newline-Cleaned (b ∷ text) =
    (λ e. ground arith, λ e. ground arith, λ h h'. ground arith, no_newline-Cleaned text)

length-map : (f : ℕ → ℕ) (s : Bytes) → length (map f s) ≡ length s
length-map f [] = refl
length-map f (b ∷ s) = ap suc (length-map f s)

module _ (ev : Libevent) (lib : Sds) where
  -- An error reply for which there is room is put in as one line: `-ERR `, the text with a space for
  -- every line end in it, and the line end, whatever bytes the client's own text holds.
  pub add_reply_error_fmt-OneLine :
      (c : SubClient) (before arg after : Bytes)
      → IsSound c
      → CanWrite ev c
      → c_string before ≡ before
      → c_string after ≡ after
      → let text = before ++ (c_string arg ++ after) in
        length c.wbuf + (5 + (length text + 2)) ≤ sub_write_buf_len
        → (s : Bytes) × OneLine s
          × Cleaned text s
          × (add_reply_error_fmt ev lib c before (c_string arg) after
              ≡ ok (with_wbuf (armed c) (c.wbuf ++ (err_prefix ++ (s ++ crlf)))))
  unfolding add_reply_error_fmt add_reply_error_length add_reply_string add_reply
  add_reply_error_fmt-OneLine c before arg after sound h eb ea room =
      let text = before ++ (c_string arg ++ after) in
      let s = map no_newline text in
      (
        s,
        no_newline-OneLine text,
        no_newline-Cleaned text,
        ap
              (λ (t : Bytes).
                add_reply_error_length ev c (map no_newline t) (length (map no_newline t)))
              (lib.sdscatvprintf-append before (c_string arg) after eb (c_string-c_string arg) ea)
            ∙ add_reply-line_fits ev c err_prefix s sound h
                (omega (arith, length-map no_newline text)),
      )
