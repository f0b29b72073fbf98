-- ===== src/ObjectId/Parts.antt =====
-- What an id says: a time, a process and a number.
use mini_pubsub_broker.Base.{
  ℕ, suc, ◌%◌, ◌≡◌, ◌≤◌, ◌<◌, refl, ap, ◌∙◌, sym, [], ◌∷◌, ◌++◌, append_assoc, Bytes, length,
  length-append, length-drop, drop, take-append, drop-append, drop-drop, ℤ, pos, negsuc, arith,
  codes,
}
use mini_pubsub_broker.Client.{Run, ok, ◌>>=◌}
use mini_pubsub_broker.ObjectId.{
  hex_text, sprintf_at, int32_max, int16_max, get_time_sec, in_range, create_objectid,
}
use mini_pubsub_broker.ObjectId.Hex.{hex_value, sixteen_to, length-hex_text, hex_value-hex_text}

nil_of_length : (xs : Bytes) → length xs ≡ 0 → xs ≡ []
nil_of_length [] h = refl
nil_of_length (x ∷ xs) h = absurd (omega arith)

in_range-lt : (seq : ℤ) → in_range seq < 16777216
in_range-lt (pos n) = ground arith
in_range-lt (negsuc n) = omega arith

all_ones : hex_text 8 6 16777215 ≡ codes "ffffff"
unfolding hex_text
all_ones = refl

-- The digits go behind what is written, with a NUL.
sprintf_at-behind :
    (xs rest : Bytes) (k w n : ℕ)
    → k ≡ length xs
    → w ≤ 8
    → n < sixteen_to w
    → w < length rest
    → sprintf_at (xs ++ rest) k w n ≡ ok ((xs ++ hex_text 8 w n) ++ (0 ∷ drop (suc w) rest))
unfolding sprintf_at
sprintf_at-behind xs rest k w n e le h room =
    rw
      (
        e,
        length-hex_text 8 w n le h,
        length-append xs rest,
        take-append xs rest,
        sym (drop-drop (length xs) (suc w) (xs ++ rest)),
        drop-append xs rest,
      )
      (ground (arith, append_assoc xs (hex_text 8 w n) (0 ∷ drop (suc w) rest)))

-- In an array of 25 bytes the id is 24 digits and a NUL: eight for the seconds, `ffffff`, four for
-- the process and six for the number, or for 0 where the number is negative or has more than 24
-- bits.
pub create_objectid-parts :
    (tv_sec pid : ℕ) (seq : ℤ) (oid : Bytes)
    → length oid ≡ 25
    → (a : Bytes) × (b : Bytes) × (c : Bytes) × (create_objectid tv_sec pid seq oid
        ≡ ok (a ++ (codes "ffffff" ++ (b ++ (c ++ (0 ∷ []))))))
      × ((length a ≡ 8) × (length b ≡ 4) × (length c ≡ 6))
      × ((hex_value a ≡ tv_sec % int32_max)
          × (hex_value b ≡ pid % int16_max)
          × (hex_value c ≡ in_range seq))
unfolding create_objectid
create_objectid-parts tv_sec pid seq oid h =
    let ts = get_time_sec tv_sec in
    let a = hex_text 8 8 ts in
    let f = hex_text 8 6 16777215 in
    let b = hex_text 8 4 (pid % int16_max) in
    let c = hex_text 8 6 (in_range seq) in
    let r1 : Bytes = 0 ∷ drop 9 oid in
    let r2 : Bytes = 0 ∷ drop 7 r1 in
    let r3 : Bytes = 0 ∷ drop 5 r2 in
    let la = length-hex_text 8 8 ts (omega arith) (omega arith) in
    let lf = length-hex_text 8 6 16777215 (omega arith) (omega arith) in
    let lb = length-hex_text 8 4 (pid % int16_max) (omega arith) (omega arith) in
    let lc = length-hex_text 8 6 (in_range seq) (omega arith) (in_range-lt seq) in
    let l1 : length r1 ≡ 17 = omega (arith, length-drop 9 oid) in
    let l2 : length r2 ≡ 11 = omega (arith, length-drop 7 r1) in
    let l3 : length r3 ≡ 7 = omega (arith, length-drop 5 r2) in
    let rest : drop 7 r3 ≡ [] = nil_of_length (drop 7 r3) (omega (arith, length-drop 7 r3)) in
    let s1 = sprintf_at-behind [] oid 0 8 ts refl (omega arith) (omega arith) (omega arith) in
    let s2 =
      sprintf_at-behind a r1 8 6 16777215 (sym la) (omega arith) (omega arith) (omega arith) in
    let s3 =
      sprintf_at-behind (a ++ f) r2 14 4 (pid % int16_max) (omega (arith, length-append a f))
        (omega arith) (omega arith) (omega arith) in
    let s4 =
      sprintf_at-behind ((a ++ f) ++ b) r3 18 6 (in_range seq)
        (omega (arith, length-append (a ++ f) b, length-append a f)) (omega arith) (in_range-lt seq)
        (omega arith) in
    let next4 : Bytes → Run Bytes = λ o. sprintf_at o 18 6 (in_range seq) in
    let next3 : Bytes → Run Bytes = λ o. sprintf_at o 14 4 (pid % int16_max) >>= next4 in
    let next2 : Bytes → Run Bytes = λ o. sprintf_at o 8 6 16777215 >>= next3 in
    (
      a,
      b,
      c,
      ap (λ m. m >>= next2) s1
          ∙ ap (λ m. m >>= next3) s2
          ∙ ap (λ m. m >>= next4) s3
          ∙ s4
          ∙ ap (λ r. ok ((((a ++ f) ++ b) ++ c) ++ (0 ∷ r))) rest
          ∙ ap ok (
              append_assoc ((a ++ f) ++ b) c (0 ∷ [])
              ∙ append_assoc (a ++ f) b (c ++ (0 ∷ []))
              ∙ append_assoc a f (b ++ (c ++ (0 ∷ [])))
              ∙ ap (λ t. a ++ (t ++ (b ++ (c ++ (0 ∷ []))))) all_ones),
      (la, lb, lc),
      (
        hex_value-hex_text 8 8 ts (omega arith) (omega arith),
        hex_value-hex_text 8 4 (pid % int16_max) (omega arith) (omega arith),
        hex_value-hex_text 8 6 (in_range seq) (omega arith) (in_range-lt seq),
      ),
    )
