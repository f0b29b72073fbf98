-- ===== src/Log/Levels.antt =====
-- Which messages a log level lets through, and the line of each.
use mini_pubsub_broker.Base.{
  ℕ, zero, suc, ◌+◌, ◌-◌, ◌++◌, length, length-append, take, le→ltb, lt→ltb, ◌≡◌, ◌≢◌, ◌<◌, ◌≤◌,
  refl, ap, ◌∙◌, sym, true, false, none, some, [], ◌∷◌, Bytes, map, arith, Bool-cases, inl, inr,
}
use mini_pubsub_broker.Libc.{lf}
use mini_pubsub_broker.Client.{ok, ◌>>=◌}
use mini_pubsub_broker.Log.{
  Level, number, level_str, to_lower, same_letters, log_set_level, srv_log, log_tag, log_line,
  write_log, size1024,
}

eq_of_same_letters : (s t : Bytes) → same_letters s t ≡ true → map to_lower s ≡ map to_lower t
unfolding same_letters
eq_of_same_letters [] [] h = refl
eq_of_same_letters [] (c ∷ t) h = cc
eq_of_same_letters (b ∷ s) [] h = cc
eq_of_same_letters (b ∷ s) (c ∷ t) h = ground (arith, eq_of_same_letters s t)

abbrev first : Bytes → ℕ
first [] = 0
first (b ∷ s) = b

same_letters-other :
    (text s t : Bytes)
    → same_letters text s ≡ true
    → first (map to_lower s) ≢ first (map to_lower t)
    → same_letters text t ≡ false
same_letters-other text s t h ne = elim (Bool-cases (same_letters text t)) [
  | inl e ↦ absurd (ne (ap first (sym (eq_of_same_letters text s h) ∙ eq_of_same_letters text t e)))
  | inr e ↦ e
]

log_set_level-spelled :
    (text : Bytes) (l current : Level)
    → same_letters text (level_str l) ≡ true
    → log_set_level text current ≡ l
unfolding log_set_level level_str
log_set_level-spelled text Level.log_debug current h = rw h
log_set_level-spelled text Level.log_info current h = rw (
  same_letters-other text (level_str Level.log_info) (level_str Level.log_debug) h
      (λ e. omega arith),
  h,
)
log_set_level-spelled text Level.log_warn current h = rw (
  same_letters-other text (level_str Level.log_warn) (level_str Level.log_debug) h
      (λ e. omega arith),
  same_letters-other text (level_str Level.log_warn) (level_str Level.log_info) h
      (λ e. omega arith),
  h,
)
log_set_level-spelled text Level.log_error current h = rw (
  same_letters-other text (level_str Level.log_error) (level_str Level.log_debug) h
      (λ e. omega arith),
  same_letters-other text (level_str Level.log_error) (level_str Level.log_info) h
      (λ e. omega arith),
  same_letters-other text (level_str Level.log_error) (level_str Level.log_warn) h
      (λ e. omega arith),
  h,
)

length-level_str : (m : Level) → length (level_str m) ≤ 5
unfolding level_str
length-level_str Level.log_debug = omega arith
length-level_str Level.log_info = omega arith
length-level_str Level.log_warn = omega arith
length-level_str Level.log_error = omega arith

take-all : (n : ℕ) (s : Bytes) → length s ≤ n → take n s ≡ s
take-all zero [] h = refl
take-all (suc n) [] h = refl
take-all zero (b ∷ s) h = absurd (omega arith)
take-all (suc n) (b ∷ s) h = ap (λ r. b ∷ r) (take-all n s (omega arith))

-- The line of a message whose text may have to be cut.
abbrev pub line : (time millis : Bytes) → Level → Bytes → Bytes
line time millis m text =
    let front = time ++ millis in
    front
    ++ (log_tag (level_str m)
        ++ (take (1023 - (length front + length (log_tag (level_str m)))) text ++ (lf ∷ [])))

length-log_tag : (name : Bytes) → length (log_tag name) ≡ length name + 3
unfolding log_tag
length-log_tag name = omega (arith, length-append name (b']' ∷ b' ' ∷ []))

log_line-line :
    (time millis text : Bytes) (m : Level)
    → length (time ++ millis) ≤ 1000
    → log_line time millis (level_str m) text ≡ ok (line time millis m text)
unfolding log_line
log_line-line time millis text m h =
    let tag = length-log_tag (level_str m) in
    let name = length-level_str m in
    let some_room = size1024 - (length (time ++ millis) + length (log_tag (level_str m))) in
    let room : some_room - 1 ≡ 1023 - (length (time ++ millis) + length (log_tag (level_str m))) =
      omega arith in
    rw
      (
        le→ltb (size1024 - 1) (length (time ++ millis)) (omega arith),
        le→ltb size1024 (length (time ++ millis) + length (log_tag (level_str m)))
            (omega (arith, tag, name)),
        take-all (size1024 - length (time ++ millis) - 1) (log_tag (level_str m))
            (omega (arith, tag, name)),
        room,
      )
      refl

-- Behind the setting of a level, spelled in any letter case, exactly the messages of that level
-- and of higher ones are written, each as a line of the time, the name of its own level and its
-- text, which is cut where the line in front of its end reaches 1023 bytes, if the time takes at
-- most 1000.
pub write_log-log_set_level :
    (text time millis msg : Bytes) (l current m : Level)
    → same_letters text (level_str l) ≡ true
    → length (time ++ millis) ≤ 1000
    → (number l ≤ number m
        → write_log (log_set_level text current) m time millis msg
          ≡ ok (some (line time millis m msg)))
      × (number m < number l → write_log (log_set_level text current) m time millis msg ≡ ok none)
unfolding write_log srv_log
write_log-log_set_level text time millis msg l current m h short =
    let e = log_set_level-spelled text l current h in
    (
      λ le.
          rw (e, le→ltb (number m) (number l) le)
            (ap (λ r. r >>= λ x. ok (some x)) (log_line-line time millis msg m short)),
      λ lt. rw (e, lt→ltb (number m) (number l) lt) refl,
    )
