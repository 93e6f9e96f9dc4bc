-- ===== src/LogMonitor/Contract.antt =====
-- proxy/logMonitor.go: the monitor against its promise, the last bytes that its writer took since
-- the buffer was released.
use llama_swap.Base.{
  ℕ, ◌-◌, ◌*◌, ◌<◌, ◌≡◌, refl, sym, ◌∙◌, List, [], ◌∷◌, ◌++◌, Option, none, some, arith, append-nil,
  length, last_n, if◌then◌else◌, ltb, drop_all, Bool-cases, inl, inr,
}
use llama_swap.Base.Text.{Text}
use llama_swap.LogMonitor.Buffer.{CircularBuffer, write, get_history}
use llama_swap.LogMonitor.History.{IsValid}
use llama_swap.LogMonitor.Writes.{
  write-IsValid, history-write, length-write, new-IsValid, history-new, length-new,
}
use llama_swap.Base.{last_n-append}
use llama_swap.LogMonitor.Monitor.{
  LogMonitor, Writer, Reply, log_buffer_size, new_log_monitor_writer, allocated, history_of,
  after_reply, write_log, log_history, clear, set_log_level, set_prefix, set_log_time_format,
  format_message, level_string, log,
}

-- What a client asks of a monitor; each write comes with the writer's reply to it.
pub data Request : Type 0 where
  writes : Text → Reply → Request
  clears : Request
  sets_level : ℕ → Request
  sets_prefix : Text → Request
  sets_time_format : Text → Request

unfoldable pub handle : LogMonitor → Request → LogMonitor
handle w (writes p reply) = (write_log w (λ _. reply) p).0
handle w clears = clear w
handle w (sets_level l) = set_log_level w l
handle w (sets_prefix p) = set_prefix w p
handle w (sets_time_format f) = set_log_time_format w f

unfoldable pub handle_all : LogMonitor → List Request → LogMonitor
handle_all w [] = w
handle_all w (r ∷ rs) = handle_all (handle w r) rs

-- The specification: the bytes taken since the last release.
abbrev pub taken : Text → Request → Text
taken past (writes p (n, none)) = past ++ p
taken past (writes p (n, some e)) = past
taken past clears = []
taken past (sets_level l) = past
taken past (sets_prefix p) = past
taken past (sets_time_format f) = past

abbrev pub taken_all : Text → List Request → Text
taken_all past [] = past
taken_all past (r ∷ rs) = taken_all (taken past r) rs

-- The buffer, if there is one, is well formed and has the room that the constant names.
abbrev pub Sound : Option CircularBuffer → Type 0
Sound none = Unit {0}
Sound (some cb) = IsValid cb × (length cb.bytes ≡ log_buffer_size)

-- A monitor that holds the end of `past`.
pub record Holds (w : LogMonitor) (past : Text) : Type 0 where
  pub sound : Sound w.buffer
  pub held : history_of w.buffer ≡ last_n log_buffer_size past

size-pos : 0 < log_buffer_size
unfolding log_buffer_size
size-pos = omega arith

allocated-Sound : (b : Option CircularBuffer) → Sound b → Sound (some (allocated b))
allocated-Sound none s = (new-IsValid log_buffer_size size-pos, length-new log_buffer_size)
allocated-Sound (some cb) s = s

history-allocated : (b : Option CircularBuffer) → get_history (allocated b) ≡ history_of b
history-allocated none = history-new log_buffer_size
history-allocated (some cb) = refl

stored :
    (b : Option CircularBuffer) (past p : Text)
    → Sound b
    → history_of b ≡ last_n log_buffer_size past
    → Sound (some (write (allocated b) p))
      × (get_history (write (allocated b) p) ≡ last_n log_buffer_size (past ++ p))
stored b past p s e =
    let (valid, room) = allocated-Sound b s in
    let carried : last_n log_buffer_size (get_history (allocated b) ++ p)
        ≡ last_n log_buffer_size (past ++ p) =
      rw (history-allocated b, e) (last_n-append log_buffer_size past p) in
    (
      (write-IsValid (allocated b) p valid, length-write (allocated b) p ∙ room),
      (rw room at (history-write (allocated b) p valid)) ∙ carried,
    )

-- Every request keeps what the monitor promises.
handle-Holds :
    (w : LogMonitor) (past : Text) (r : Request) → Holds w past → Holds (handle w r) (taken past r)
unfolding handle write_log after_reply clear set_log_level set_prefix set_log_time_format
handle-Holds w past (writes [] (n, none)) h = rw append-nil h
handle-Holds w past (writes [] (n, some e)) h = h
handle-Holds w past (writes (c ∷ p) (n, none)) h =
    let (s, e) = stored w.buffer past (c ∷ p) h.sound h.held in record { sound = s; held = e }
handle-Holds w past (writes (c ∷ p) (n, some e)) h = h
handle-Holds w past clears h = record {
  sound = tt;
  held = sym (drop_all (0 - log_buffer_size) [] (omega arith));
}
handle-Holds w past (sets_level l) h = record { sound = h.sound; held = h.held }
handle-Holds w past (sets_prefix p) h = record { sound = h.sound; held = h.held }
handle-Holds w past (sets_time_format f) h = record { sound = h.sound; held = h.held }

handle_all-Holds :
    (w : LogMonitor) (past : Text) (rs : List Request)
    → Holds w past
    → Holds (handle_all w rs) (taken_all past rs)
unfolding handle_all
handle_all-Holds w past [] h = h
handle_all-Holds w past (r ∷ rs) h =
    handle_all-Holds (handle w r) (taken past r) rs (handle-Holds w past r h)

pub new-Holds : Holds new_log_monitor_writer []
unfolding new_log_monitor_writer
new-Holds = record { sound = tt; held = sym (drop_all (0 - log_buffer_size) [] (omega arith)) }

-- After any sequence of writes, releases and settings, the history of a monitor that began new is
-- the last 100 KiB of what its writer accepted without an error since the last release.
pub log_history-handle_all :
    (rs : List Request)
    → log_history (handle_all new_log_monitor_writer rs) ≡ last_n (100 * 1024) (taken_all [] rs)
unfolding log_history log_buffer_size
log_history-handle_all rs = (handle_all-Holds new_log_monitor_writer [] rs new-Holds).held

log-handle :
    (w : LogMonitor) (stdout : Writer) (now : Text) (level : ℕ) (msg : Text)
    → let line = format_message w now (level_string level) msg in
      (log w stdout now level msg).0
      ≡ (if ltb level w.level then w else handle w (writes line (stdout line)))
unfolding log handle
log-handle w stdout now level msg = go (format_message w now (level_string level) msg)
  where
    same : (line : Text) → (write_log w stdout line).0 ≡ (write_log w (λ _. stdout line) line).0
    same [] = unfold write_log in refl
    same (c ∷ p) = unfold write_log in refl

    go :
        (line : Text)
        → (if ltb level w.level
            then (w, none)
            else (let (w', _, sent) = write_log w stdout line in
                let r : LogMonitor × Option Text = (w', sent) in r)).0
          ≡ (if ltb level w.level then w else (write_log w (λ _. stdout line) line).0)
    go line = ground (arith, same line)

-- A logged message keeps the monitor's promise: one below the level leaves the history as it was, and
-- any other extends it by the line that `formatMessage` lays out, exactly if the writer took it
-- without an error.
pub log-Holds :
    (w : LogMonitor) (stdout : Writer) (now : Text) (level : ℕ) (msg past : Text)
    → Holds w past
    → let line = format_message w now (level_string level) msg in
      Holds
        (log w stdout now level msg).0
        (if ltb level w.level then past else taken past (writes line (stdout line)))
log-Holds w stdout now level msg past h =
    let line = format_message w now (level_string level) msg in
    rw (log-handle w stdout now level msg) (elim (Bool-cases (ltb level w.level)) [
      | inl e ↦ rw e h
      | inr e ↦ rw e (handle-Holds w past (writes line (stdout line)) h)
    ])
