-- ===== src/LogMonitor/Sequences.antt =====
-- proxy/logMonitor.go: a sequence of writes to a `circularBuffer`.
use llama_swap.Base.{
  ℕ, ◌-◌, ◌<◌, ◌≡◌, sym, ◌∙◌, List, [], ◌∷◌, ◌++◌, arith, append-nil, append_assoc, concat, length,
  last_n, length-replicate, drop_all, last_n-append,
}
use llama_swap.LogMonitor.Buffer.{CircularBuffer, new_circular_buffer, write, get_history}
use llama_swap.LogMonitor.History.{IsValid}
use llama_swap.LogMonitor.Writes.{
  write-IsValid, history-write, length-write, new-IsValid, history-new,
}

unfoldable pub write_all : CircularBuffer → List (List ℕ) → CircularBuffer
write_all cb [] = cb
write_all cb (p ∷ ps) = write_all (write cb p) ps

history-write_all_from :
    (cb : CircularBuffer) (past : List ℕ) (ps : List (List ℕ))
    → IsValid cb
    → get_history cb ≡ last_n (length cb.bytes) past
    → get_history (write_all cb ps) ≡ last_n (length cb.bytes) (past ++ concat ps)
unfolding write_all
history-write_all_from cb past [] v e = rw append-nil e
history-write_all_from cb past (p ∷ ps) v e =
    let n = length cb.bytes in
    let carried : last_n n (get_history cb ++ p) ≡ last_n n (past ++ p) =
      rw e (last_n-append n past p) in
    let grown : get_history (write cb p) ≡ last_n (length (write cb p).bytes) (past ++ p) =
      rw (length-write cb p) (history-write cb p v ∙ carried) in
    let rest = history-write_all_from (write cb p) (past ++ p) ps (write-IsValid cb p v) grown in
    rw (length-write cb p, append_assoc) at rest

-- After any sequence of writes to a new buffer of a positive capacity, `GetHistory` returns exactly
-- the last bytes of all that was written, as many as the capacity, in order.
pub history-write_all :
    (capacity : ℕ) (ps : List (List ℕ))
    → 0 < capacity
    → get_history (write_all (new_circular_buffer capacity) ps) ≡ last_n capacity (concat ps)
history-write_all capacity ps pos =
    let l : length (new_circular_buffer capacity).bytes ≡ capacity =
      unfold new_circular_buffer in length-replicate {A = ℕ} capacity 0 in
    let start =
      history-new capacity
      ∙ sym (drop_all (0 - length (new_circular_buffer capacity).bytes) [] (omega arith)) in
    rw l at
      (history-write_all_from (new_circular_buffer capacity) [] ps (new-IsValid capacity pos) start)
