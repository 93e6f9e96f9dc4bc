-- ===== src/LogMonitor/Writes.antt =====
-- proxy/logMonitor.go, `circularBuffer.Write` against its promise: the history is the last bytes
-- written, as many as there is room for.
use llama_swap.Base.{
  ℕ, ◌+◌, ◌-◌, ◌≤◌, ◌<◌, ◌≡◌, refl, List, [], ◌∷◌, ◌++◌, arith, append-nil, length, drop, copy_at,
  last_n, leb, length-append, length-drop, length-replicate, length-copy_at, drop-append_left,
  drop-drop, copy_at_whole, Bool-cases, inl, inr,
}
use llama_swap.LogMonitor.Buffer.{CircularBuffer, new_circular_buffer, write, get_history}
use llama_swap.LogMonitor.Rotation.{rotate}
use llama_swap.LogMonitor.History.{IsValid, length-rotate, history-rotate}
use llama_swap.LogMonitor.Places.{length-place, place-IsValid, history-place}

-- An input that fills the buffer alone.
refill : CircularBuffer → List ℕ → CircularBuffer
refill cb p = record {
  bytes = copy_at cb.bytes 0 (drop (length p - length cb.bytes) p);
  head = 0;
  size = length cb.bytes;
}

length-history : {cb : CircularBuffer} → IsValid cb → length (get_history cb) ≡ cb.size
length-history {cb} v = rw (history-rotate v) (
    omega (
      arith,
      v.size_in,
      length-rotate cb.head cb.bytes,
      length-drop (length cb.bytes - cb.size) (rotate cb.head cb.bytes),
    ))

refill_bytes :
    (cb : CircularBuffer) (p : List ℕ)
    → length cb.bytes ≤ length p
    → copy_at cb.bytes 0 (drop (length p - length cb.bytes) p) ≡ last_n (length cb.bytes) p
refill_bytes cb p le =
    copy_at_whole cb.bytes (drop (length p - length cb.bytes) p)
      (omega (arith, length-drop (length p - length cb.bytes) p))

refill-IsValid : (cb : CircularBuffer) (p : List ℕ) → IsValid cb → IsValid (refill cb p)
unfolding refill
refill-IsValid cb p v =
    let l = length-copy_at cb.bytes 0 (drop (length p - length cb.bytes) p) in
    record { room = rw l v.room; head_in = rw l v.room; size_in = omega (arith, l) }

history-refill :
    (cb : CircularBuffer) (p : List ℕ)
    → IsValid cb
    → length cb.bytes ≤ length p
    → get_history (refill cb p) ≡ last_n (length cb.bytes) (get_history cb ++ p)
unfolding refill
history-refill cb p v le =
    let h = get_history cb in
    let n = length cb.bytes in
    let zip : length (copy_at cb.bytes 0 (drop (length p - n) p)) - n ≡ 0 =
      omega (arith, length-copy_at cb.bytes 0 (drop (length p - n) p)) in
    let l : length (h ++ p) - n ≡ length h + (length p - n) = omega (arith, length-append h p) in
    rw (history-rotate (refill-IsValid cb p v)) (
      rw (
        zip,
        append-nil,
        refill_bytes cb p le,
        l,
        ← drop-drop (length p - n) (length h) (h ++ p),
        drop-append_left (length h) h p refl,
      ))

-- Every write keeps the buffer well formed: its bytes as many as before, the write position inside
-- them, and no more bytes counted than there is room for.
pub write-IsValid : (cb : CircularBuffer) (p : List ℕ) → IsValid cb → IsValid (write cb p)
unfolding write
write-IsValid cb [] v = v
write-IsValid cb (b ∷ bs) v = elim (Bool-cases (leb (length cb.bytes) (length (b ∷ bs)))) [
  | inl e ↦ rw e (unfold refill in refill-IsValid cb (b ∷ bs) v)
  | inr e ↦ rw e (place-IsValid cb (b ∷ bs) v (ground arith))
]

-- For a well-formed buffer the history after `Write` is the last bytes, as many as the capacity, of
-- the history before it followed by the input: nothing else is lost, and the order is kept.
pub history-write :
    (cb : CircularBuffer) (p : List ℕ)
    → IsValid cb
    → get_history (write cb p) ≡ last_n (length cb.bytes) (get_history cb ++ p)
unfolding write
history-write cb [] v =
    let none_lost : length (get_history cb) - length cb.bytes ≡ 0 =
      omega (arith, length-history v, v.size_in) in
    rw (append-nil, none_lost)
history-write cb (b ∷ bs) v = elim (Bool-cases (leb (length cb.bytes) (length (b ∷ bs)))) [
  | inl e ↦ rw e (unfold refill in history-refill cb (b ∷ bs) v (ground arith))
  | inr e ↦ rw e (history-place cb (b ∷ bs) v (ground arith))
]

pub new-IsValid : (capacity : ℕ) → 0 < capacity → IsValid (new_circular_buffer capacity)
unfolding new_circular_buffer
new-IsValid capacity pos =
    let l = length-replicate {A = ℕ} capacity 0 in
    record { room = rw l pos; head_in = rw l pos; size_in = omega arith }

pub history-new : (capacity : ℕ) → get_history (new_circular_buffer capacity) ≡ []
unfolding new_circular_buffer get_history
history-new capacity = refl

pub length-write : (cb : CircularBuffer) (p : List ℕ) → length (write cb p).bytes ≡ length cb.bytes
unfolding write
length-write cb [] = refl
length-write cb (b ∷ bs) = ground (
  arith,
  length-copy_at cb.bytes 0 (drop (length (b ∷ bs) - length cb.bytes) (b ∷ bs)),
  length-place cb (b ∷ bs),
)

pub length-new : (capacity : ℕ) → length (new_circular_buffer capacity).bytes ≡ capacity
unfolding new_circular_buffer
length-new capacity = length-replicate {A = ℕ} capacity 0
