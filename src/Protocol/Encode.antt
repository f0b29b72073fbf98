-- ===== src/Protocol/Encode.antt =====
-- How a client writes a request: `*<count>\r\n`, then `$<length>\r\n<bytes>\r\n` for each argument.
use mini_pubsub_broker.Base.{
  ℕ, ◌+◌, ◌-◌, ◌≤◌, ◌<◌, ◌≡◌, refl, ap, ◌∙◌, List, [], ◌∷◌, ◌++◌, append_assoc, Bytes, length, drop,
  length-append, drop-append, arith,
}
use mini_pubsub_broker.Number.Print.{print}
use mini_pubsub_broker.Libc.{cr, lf}
use mini_pubsub_broker.Client.{max_bulk_len}

-- The arguments in front of the bytes that follow them.
unfoldable pub encode_args : List Bytes → Bytes → Bytes
encode_args [] rest = rest
encode_args (a ∷ args) rest =
    b'$' ∷ (print (length a) ++ (cr ∷ lf ∷ (a ++ (cr ∷ lf ∷ encode_args args rest))))

-- A request in front of the bytes that follow it.
unfoldable pub encode : List Bytes → Bytes → Bytes
unfolding encode_args
encode args rest = b'*' ∷ (print (length args) ++ (cr ∷ lf ∷ encode_args args rest))

-- Each argument is within `MAX_BULK_LEN`.
abbrev pub FitBulks : List Bytes → Type 0
FitBulks [] = Unit {0}
FitBulks (a ∷ args) = (length a ≤ max_bulk_len) × FitBulks args

encode_args-append :
    (args : List Bytes) (rest : Bytes) → encode_args args rest ≡ encode_args args [] ++ rest
unfolding encode_args
encode_args-append [] rest = refl
encode_args-append (a ∷ args) rest = simp (encode_args-append args rest, append_assoc)

pub encode-append : (args : List Bytes) (rest : Bytes) → encode args rest ≡ encode args [] ++ rest
unfolding encode
encode-append args rest = simp (encode_args-append args rest, append_assoc)

length-encode : (args : List Bytes) → 0 < length (encode args [])
unfolding encode
length-encode args = omega arith

-- What is left of a buffer that begins with a request.
pub drop-encode :
    (buf : Bytes) (args : List Bytes) (rest : Bytes)
    → buf ≡ encode args rest
    → (drop (length buf - length rest) buf ≡ rest) × (length rest < length buf)
drop-encode buf args rest e =
    let front = encode args [] in
    let split : buf ≡ front ++ rest = e ∙ encode-append args rest in
    let size : length buf ≡ length front + length rest =
      ap (length {0}) split ∙ length-append front rest in
    (
      ap (λ (k : ℕ). drop k buf) {y = length front} (omega arith)
          ∙ ap (drop (length front)) split
          ∙ drop-append front rest,
      omega (arith, length-encode args),
    )
