-- ===== src/Protocol/Line.antt =====
-- What `process_inline_buffer` makes of a line, ended by `\r\n` or by `\n` alone.
use mini_pubsub_broker.Base.{
  ℕ, zero, suc, ◌+◌, ◌-◌, ◌≤◌, ◌<◌, ◌≡◌, ◌≢◌, refl, sym, ap, ◌∙◌, Option, none, some, List, [], ◌∷◌,
  ◌++◌, append_assoc, append-nil, map, Bytes, length, take, drop, set, replicate, length-append,
  take-append, drop-append, drop-drop, lt→ltb, arith, pos, negsuc,
}
use mathlib.Core.Path.{ap₂}
use mini_pubsub_broker.Libc.{cr, lf, strchr, c_string, byte_at}
use mini_pubsub_broker.Sds.{Sds}
use mini_pubsub_broker.Client.{ok, ◌>>=◌, subcli_ok, SubClient, push_arg}
use mini_pubsub_broker.Protocol.Inline.{
  copy_args, query_len, process_line, find_end, process_inline_buffer,
}

-- The arguments that are kept: those that are not empty, up to their first NUL.
unfoldable pub kept : List Bytes → List Bytes
kept [] = []
kept ([] ∷ args) = kept args
kept ((b ∷ s) ∷ args) = c_string (b ∷ s) ∷ kept args

-- No line feed and no NUL.
abbrev pub IsLine : Bytes → Type 0
IsLine [] = Unit {0}
IsLine (b ∷ s) = (b ≢ lf) × (b ≢ 0) × IsLine s

strchr-line :
    (line rest : Bytes) → IsLine line → strchr (line ++ (lf ∷ rest)) lf ≡ some (length line)
unfolding strchr
strchr-line [] rest h = refl
strchr-line (b ∷ line) rest h = ground (arith, strchr-line line rest h.2)

take-c_string : (s : Bytes) → take (length (c_string s)) s ≡ c_string s
unfolding c_string
take-c_string [] = refl
take-c_string (b ∷ s) = ground (arith, take-c_string s)

length-c_string : (s : Bytes) → length (c_string s) ≤ length s
unfolding c_string
length-c_string [] = omega arith
length-c_string (b ∷ s) = ground (arith, length-c_string s)

byte_at-append : (s r : Bytes) (b : ℕ) → byte_at (s ++ (b ∷ r)) (length s) ≡ b
unfolding byte_at
byte_at-append [] r b = refl
byte_at-append (a ∷ s) r b = byte_at-append s r b

IsLine-last : (s : Bytes) (b : ℕ) → IsLine s → b ≢ lf → b ≢ 0 → IsLine (s ++ (b ∷ []))
IsLine-last [] b h no_lf no_nul = (no_lf, no_nul, tt)
IsLine-last (a ∷ s) b h no_lf no_nul = (h.0, h.1, IsLine-last s b h.2 no_lf no_nul)

byte_at-front : (s r : Bytes) (i : ℕ) → i < length s → byte_at (s ++ r) i ≡ byte_at s i
unfolding byte_at
byte_at-front [] r i h = absurd (omega arith)
byte_at-front (a ∷ s) r zero h = refl
byte_at-front (a ∷ s) r (suc i) h = byte_at-front s r i (omega arith)

-- The first slot that is free takes an argument.
set-first_free :
    (args : List Bytes) (s : Bytes) (k : ℕ)
    → set (map some args ++ replicate (suc k) none) (length args) (some s)
      ≡ map some (args ++ (s ∷ [])) ++ replicate k none
set-first_free [] s k = refl
set-first_free (a ∷ args) s k = ap (λ x. some a ∷ x) (set-first_free args s k)

length-slots :
    (args : List Bytes) (k : ℕ) → length (map some args ++ replicate k none) ≡ length args + k
length-slots [] zero = refl
length-slots [] (suc k) = omega (arith, length-slots [] k)
length-slots (a ∷ args) k = omega (arith, length-slots args k)

-- A connection with some arguments in front of free slots.
abbrev pub holding : SubClient → List Bytes → ℕ → SubClient
holding c args k = record c { argv = map some args ++ replicate k none; argc = length args }

-- The connection behind a line, with what is left of its buffer.
abbrev pub behind : SubClient → List Bytes → ℕ → Bytes → SubClient
behind c args e rest = record c {
  read_buf = rest;
  argv = map some (kept args) ++ replicate e none;
  argc = length (kept args);
}

module _ (lib : Sds) where
  push_arg-holding :
      (c : SubClient) (args : List Bytes) (s : Bytes) (k : ℕ)
      → push_arg s (holding c args (suc k)) ≡ ok (holding c (args ++ (s ∷ [])) k)
  unfolding push_arg
  push_arg-holding c args s k =
      let test =
        lt→ltb (length args) (length (map some args ++ replicate (suc k) none))
          (omega (arith, length-slots args (suc k))) in
      let count : length args + 1 ≡ length (args ++ (s ∷ [])) =
        omega (arith, length-append args (s ∷ [])) in
      rw test (
        ap₂ (λ (v : List (Option Bytes)) (n : ℕ). ok (record c { argv = v; argc = n }))
          (set-first_free args s k) count)

  copy_args-kept :
      (c : SubClient) (args done : List Bytes) (k : ℕ)
      → length args ≤ k
      → (e : ℕ) × (copy_args lib args (holding c done k) ≡ ok (holding c (done ++ kept args) e))
  unfolding copy_args kept
  copy_args-kept c [] done k h = (k, ap (λ d. ok (holding c d k)) (sym (append-nil done)))
  copy_args-kept c ([] ∷ args) done k h = copy_args-kept c args done k (omega arith)
  copy_args-kept c ((b ∷ s) ∷ args) done zero h = absurd (omega arith)
  copy_args-kept c ((b ∷ s) ∷ args) done (suc k) h =
      let s' = c_string (b ∷ s) in
      let cut : lib.sdsnewlen (b ∷ s) (length s') ≡ s' =
        lib.sdsnewlen-take (b ∷ s) (length s') (length-c_string (b ∷ s)) ∙ take-c_string (b ∷ s) in
      let (e, later) = copy_args-kept c args (done ++ (s' ∷ [])) k (omega arith) in
      (
        e,
        ap (λ x. push_arg x (holding c done (suc k)) >>= copy_args lib args) cut
            ∙ ap (λ r. r >>= copy_args lib args) (push_arg-holding c done s' k)
            ∙ later
            ∙ ap (λ d. ok (holding c d e)) (append_assoc done (s' ∷ []) (kept args)),
      )

  process_inline_buffer-query :
      (c : SubClient) (line tail : Bytes) (newline : ℕ) (args : List Bytes)
      → c.read_buf ≡ line ++ tail
      → strchr c.read_buf lf ≡ some newline
      → query_len lib c.read_buf newline ≡ length line
      → lib.sdssplitargs line ≡ some args
      → (e : ℕ) × (process_inline_buffer lib c ≡ ok (subcli_ok, behind c args e (drop 2 tail)))
  unfolding process_inline_buffer find_end process_line
  process_inline_buffer-query c line tail newline args eb en eq es =
      let cut : lib.sdsnewlen c.read_buf (length line) ≡ line =
        ap (λ (x : Bytes). lib.sdsnewlen x (length line)) eb
        ∙ lib.sdsnewlen-take (line ++ tail) (length line) (omega (arith, length-append line tail))
        ∙ take-append line tail in
      let left : lib.sdsrange c.read_buf (pos (length line + 2)) (negsuc 0) ≡ drop 2 tail =
        lib.sdsrange-drop c.read_buf (length line + 2)
        ∙ sym (drop-drop (length line) 2 c.read_buf)
        ∙ ap (λ (x : Bytes). drop 2 (drop (length line) x)) eb
        ∙ ap (drop 2) (drop-append line tail) in
      let (e, copied) =
        copy_args-kept (record c { read_buf = drop 2 tail }) args [] (length args) (omega arith) in
      (
        e,
        ap (find_end lib c) en
            ∙ ap (λ (q : ℕ). process_line lib c q (lib.sdssplitargs (lib.sdsnewlen c.read_buf q)))
                eq
            ∙ ap (λ (x : Bytes). process_line lib c (length line) (lib.sdssplitargs x)) cut
            ∙ ap (process_line lib c (length line)) es
            ∙ ap
                (λ (x : Bytes).
                  copy_args lib args
                    (record c { read_buf = x; argc = 0; argv = replicate (length args) none })
                  >>= λ c'. ok (subcli_ok, c'))
                left
            ∙ ap (λ r. r >>= λ c'. ok (subcli_ok, c')) copied,
      )

  query_len-crlf :
      (line rest : Bytes) → query_len lib (line ++ (cr ∷ rest)) (length line + 1) ≡ length line
  unfolding query_len
  query_len-crlf line rest =
      let before : length line + 1 - 1 ≡ length line = omega arith in
      rw (before, byte_at-append line rest cr) (ground arith)

  query_len-lf :
      (line rest : Bytes)
      → byte_at line (length line - 1) ≢ cr
      → query_len lib (line ++ rest) (length line) ≡ length line
  unfolding query_len
  query_len-lf [] rest no_cr = refl
  query_len-lf (a ∷ line) rest no_cr =
      rw (byte_at-front (a ∷ line) rest (suc (length line) - 1) (omega arith)) (ground arith)

  -- A line ended by a carriage return and a line feed, without a line feed or a NUL inside, becomes
  -- the arguments that `sdssplitargs` finds in it, those that are not empty, each up to its first
  -- NUL; exactly the line with its end is taken off the buffer.
  pub process_inline_buffer-crlf :
      (c : SubClient) (line rest : Bytes) (args : List Bytes)
      → c.read_buf ≡ line ++ (cr ∷ lf ∷ rest)
      → IsLine line
      → lib.sdssplitargs line ≡ some args
      → (e : ℕ) × (process_inline_buffer lib c ≡ ok (subcli_ok, behind c args e rest))
  process_inline_buffer-crlf c line rest args eb is_line es =
      process_inline_buffer-query c line (cr ∷ lf ∷ rest) (length line + 1) args eb
        (ap (λ (x : Bytes). strchr x lf) (eb ∙ sym (append_assoc line (cr ∷ []) (lf ∷ rest)))
          ∙ strchr-line (line ++ (cr ∷ [])) rest
              (IsLine-last line cr is_line (omega arith) (omega arith))
          ∙ ap some (length-append line (cr ∷ [])))
        (ap (λ (x : Bytes). query_len lib x (length line + 1)) eb ∙ query_len-crlf line (lf ∷ rest))
        es

  -- A line ended by a line feed alone becomes its arguments likewise, and the first byte behind its
  -- end is lost.
  pub process_inline_buffer-lf :
      (c : SubClient) (line rest : Bytes) (b : ℕ) (args : List Bytes)
      → c.read_buf ≡ line ++ (lf ∷ b ∷ rest)
      → IsLine line
      → byte_at line (length line - 1) ≢ cr
      → lib.sdssplitargs line ≡ some args
      → (e : ℕ) × (process_inline_buffer lib c ≡ ok (subcli_ok, behind c args e rest))
  process_inline_buffer-lf c line rest b args eb is_line no_cr es =
      process_inline_buffer-query c line (lf ∷ b ∷ rest) (length line) args eb
        (ap (λ (x : Bytes). strchr x lf) eb ∙ strchr-line line (b ∷ rest) is_line)
        (ap (λ (x : Bytes). query_len lib x (length line)) eb
          ∙ query_len-lf line (lf ∷ b ∷ rest) no_cr)
        es
