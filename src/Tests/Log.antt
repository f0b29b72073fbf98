-- ===== src/Tests/Log.antt =====
-- Log levels and lines.
use mini_pubsub_broker.Base.{◌≡◌, ◌<◌, ◌≤◌, refl, none, some, Bytes, codes, arith}
use mini_pubsub_broker.Client.{ok}
use mini_pubsub_broker.Log.{Level, level_str, same_letters, log_set_level, write_log}
use mini_pubsub_broker.Log.Levels.{line, write_log-log_set_level}

abbrev time : Bytes
time = codes "2024-05-06 07:08:09"

abbrev millis : Bytes
millis = codes ".123 "

write_log-log_set_level_example :
    (2 ≤ 3
      → write_log
          (log_set_level (codes "Warn") Level.log_debug)
          Level.log_error
          time
          millis
          (codes "freeing server")
        ≡ ok (some (line time millis Level.log_error (codes "freeing server"))))
    × (3 < 2
        → write_log
            (log_set_level (codes "Warn") Level.log_debug)
            Level.log_error
            time
            millis
            (codes "freeing server")
          ≡ ok none)
unfolding same_letters level_str
write_log-log_set_level_example =
    write_log-log_set_level (codes "Warn") time millis (codes "freeing server") Level.log_warn
      Level.log_debug Level.log_error refl (omega arith)
