-- ===== src/Tests/Logs.antt =====
-- proxy/logMonitor.go on concrete inputs.
use llama_swap.Base.{ℕ, ◌*◌, ◌≡◌, refl, List, [], ◌∷◌, none, some, arith, length, last_n}
use llama_swap.Base.Text.{codes}
use llama_swap.LogMonitor.Buffer.{
  CircularBuffer, new_circular_buffer, write, get_history, place, gather,
}
use llama_swap.LogMonitor.History.{IsValid}
use llama_swap.LogMonitor.Writes.{new-IsValid}
use llama_swap.LogMonitor.Monitor.{Writer, new_log_monitor_writer, log_history}
use llama_swap.LogMonitor.Contract.{
  Request, writes, clears, handle_all, taken_all, log_history-handle_all,
}

abbrev small_buffer : CircularBuffer
small_buffer = new_circular_buffer 3

small_buffer-IsValid : IsValid small_buffer
small_buffer-IsValid = new-IsValid 3 (omega arith)

-- Five bytes in two writes: the second one wraps round.
abbrev after_two : CircularBuffer
after_two = write small_buffer (1 ∷ 2 ∷ [])

wraps_round : get_history (write after_two (3 ∷ 4 ∷ [])) ≡ 2 ∷ 3 ∷ 4 ∷ []
unfolding get_history write new_circular_buffer place gather
wraps_round = refl

abbrev three_writes : List (List ℕ)
three_writes = (1 ∷ 2 ∷ []) ∷ (3 ∷ []) ∷ (4 ∷ 5 ∷ 6 ∷ 7 ∷ []) ∷ []

abbrev requests_made : List Request
requests_made =
    writes (codes "old") (3, none)
    ∷ clears
    ∷ writes (codes "new") (3, none)
    ∷ writes (codes "lost") (0, some (codes "closed"))
    ∷ []

log_history-handle_all_example :
    log_history (handle_all new_log_monitor_writer requests_made)
    ≡ last_n (100 * 1024) (taken_all [] requests_made)
log_history-handle_all_example = log_history-handle_all requests_made

abbrev accepting : Writer
accepting p = (length p, none)
