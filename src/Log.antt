-- ===== src/Log.antt =====
-- The log of src/util.c: its level, which messages are written, and the line of one.
pub mod Levels
use mini_pubsub_broker.Base.{
  ℕ, ◌+◌, ◌-◌, Bool, true, false, not, ◌&&◌, Option, none, some, List, [], ◌∷◌, ◌++◌, Bytes, length,
  take, ltb, leb, ◌||◌, ◌==◌, if◌then◌else◌, codes,
}
use mini_pubsub_broker.Libc.{lf}
use mini_pubsub_broker.Client.{Run, ok, fault, ◌>>=◌}

-- `LOG_DEBUG` to `LOG_ERROR`.
pub data Level : Type 0 where
  log_debug log_info log_warn log_error : Level

abbrev pub number : Level → ℕ
number Level.log_debug = 0
number Level.log_info = 1
number Level.log_warn = 2
number Level.log_error = 3

-- `LOG_DEBUG_STR` to `LOG_ERROR_STR`.
unfoldable pub level_str : Level → Bytes
level_str Level.log_debug = codes "DEBUG"
level_str Level.log_info = codes "INFO"
level_str Level.log_warn = codes "WARN"
level_str Level.log_error = codes "ERROR"

abbrev pub to_lower : ℕ → ℕ
to_lower b = if leb b'A' b && leb b b'Z' then b + 32 else b

-- `strcasecmp(s, t) == 0` on texts without a NUL.
unfoldable pub same_letters : Bytes → Bytes → Bool
same_letters [] [] = true
same_letters [] (c ∷ t) = false
same_letters (b ∷ s) [] = false
same_letters (b ∷ s) (c ∷ t) = to_lower b == to_lower c && same_letters s t

-- The level behind the call; another text changes nothing.
unfoldable pub log_set_level : Bytes → Level → Level
unfolding same_letters level_str
log_set_level text current =
    if same_letters text (level_str Level.log_debug)
    then Level.log_debug
    else if same_letters text (level_str Level.log_info)
    then Level.log_info
    else if same_letters text (level_str Level.log_warn)
    then Level.log_warn
    else if same_letters text (level_str Level.log_error)
    then Level.log_error
    else current

-- Whether `srv_log` writes a message of one of the four levels, and the name that it writes.
unfoldable pub srv_log : Level → Level → Option Bytes
unfolding level_str
srv_log current level = if ltb (number level) (number current) then none else some (level_str level)

-- `SIZE1024`.
abbrev pub size1024 : ℕ
size1024 = 1024

-- `[%s] `.
unfoldable pub log_tag : Bytes → Bytes
log_tag name = b'[' ∷ (name ++ (b']' ∷ b' ' ∷ []))

-- The line that is put together in `msg`, with its end. `time` is what `strftime` writes, `millis`
-- what the first `snprintf` is to write, and `text` what the format of the caller yields. The first
-- `snprintf` is told of more room than there is, and the room for `text` is a difference of two
-- `size_t`.
unfoldable pub log_line : (time millis name text : Bytes) → Run Bytes
unfolding log_tag
log_line time millis name text =
    let front = time ++ millis in
    let offset = length front + length (log_tag name) in
    if ltb (size1024 - 1) (length front) || ltb size1024 offset
    then fault
    else ok (
        front
        ++ (take (size1024 - length front - 1) (log_tag name)
            ++ (take (size1024 - offset - 1) text ++ (lf ∷ []))))

abbrev line_of : (time millis text : Bytes) → Option Bytes → Run (Option Bytes)
line_of time millis text none = ok none
line_of time millis text (some name) = log_line time millis name text >>= λ l. ok (some l)

-- What a call of `srv_log` writes, if it writes.
unfoldable pub write_log : Level → Level → (time millis text : Bytes) → Run (Option Bytes)
unfolding srv_log log_line
write_log current level time millis text = line_of time millis text (srv_log current level)
