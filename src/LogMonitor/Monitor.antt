-- ===== src/LogMonitor/Monitor.antt =====
-- proxy/logMonitor.go, `LogMonitor`. The writer behind `w.stdout` is an argument, its reply to each
-- call as Go's `io.Writer` gives it. What `broadcast` publishes is a result. `time.Now().Format` is
-- an argument too: the text of the present time in the monitor's format.
use llama_swap.Base.{ℕ, ◌*◌, [], ◌∷◌, ◌++◌, Option, none, some, if◌then◌else◌, ltb}
use llama_swap.Base.Text.{Text, codes, text_eq}
use llama_swap.LogMonitor.Buffer.{CircularBuffer, new_circular_buffer, write, get_history}

-- `LogLevel` is an `int`, of which four values have names.
abbrev pub level_debug : ℕ
level_debug = 0

abbrev pub level_info : ℕ
level_info = 1

abbrev pub level_warn : ℕ
level_warn = 2

abbrev pub level_error : ℕ
level_error = 3

unfoldable pub log_buffer_size : ℕ
log_buffer_size = 100 * 1024

-- The reply of an `io.Writer`: the bytes taken, and the error if there is one.
abbrev pub Reply : Type 0
Reply = ℕ × Option Text

abbrev pub Writer : Type 0
Writer = Text → Reply

pub record LogMonitor : Type 0 where
  pub buffer : Option CircularBuffer
  pub level : ℕ
  pub prefix : Text
  pub time_format : Text

unfoldable pub new_log_monitor_writer : LogMonitor
new_log_monitor_writer = record { buffer = none; level = level_info; prefix = []; time_format = [] }

-- `LogLevel.String`.
unfoldable pub level_string : ℕ → Text
level_string l =
    if ltb l 1
    then codes "DEBUG"
    else if ltb l 2
    then codes "INFO"
    else if ltb l 3
    then codes "WARN"
    else if ltb l 4
    then codes "ERROR"
    else codes "UNKNOWN"

-- The buffer is allocated on the first write.
abbrev pub allocated : Option CircularBuffer → CircularBuffer
allocated none = new_circular_buffer log_buffer_size
allocated (some cb) = cb

-- The write after the writer's reply.
unfoldable pub after_reply : LogMonitor → Text → Reply → LogMonitor × Reply × Option Text
after_reply w p (n, some e) = (w, (n, some e), none)
after_reply w p (n, none) =
    (record w { buffer = some (write (allocated w.buffer) p) }, (n, none), some p)

-- `Write`: the monitor, what the caller gets, and what is broadcast.
unfoldable pub write_log : LogMonitor → Writer → Text → LogMonitor × Reply × Option Text
write_log w stdout [] = (w, (0, none), none)
write_log w stdout (c ∷ p) = after_reply w (c ∷ p) (stdout (c ∷ p))

abbrev pub history_of : Option CircularBuffer → Text
history_of none = []
history_of (some cb) = get_history cb

unfoldable pub log_history : LogMonitor → Text
log_history w = history_of w.buffer

unfoldable pub clear : LogMonitor → LogMonitor
clear w = record w { buffer = none }

unfoldable pub set_prefix : LogMonitor → Text → LogMonitor
set_prefix w p = record w { prefix = p }

unfoldable pub set_log_level : LogMonitor → ℕ → LogMonitor
set_log_level w l = record w { level = l }

unfoldable pub set_log_time_format : LogMonitor → Text → LogMonitor
set_log_time_format w f = record w { time_format = f }

abbrev pub bracketed : Text → Text
bracketed t = codes "[" ++ (t ++ codes "] ")

-- `formatMessage`, with the present time as a text.
unfoldable pub format_message : LogMonitor → Text → Text → Text → Text
format_message w now level msg =
    (if text_eq w.time_format [] then [] else now ++ codes " ")
    ++ ((if text_eq w.prefix [] then [] else bracketed w.prefix)
        ++ (bracketed level ++ (msg ++ (10 ∷ []))))

-- `log`, behind `Debug`, `Info`, `Warn`, `Error` and their `f` forms.
unfoldable pub log : LogMonitor → Writer → Text → ℕ → Text → LogMonitor × Option Text
log w stdout now level msg =
    if ltb level w.level
    then (w, none)
    else (let (w', _, sent) = write_log w stdout (format_message w now (level_string level) msg) in
        (w', sent))
