-- ===== src/LogMonitor/Places.antt =====
-- proxy/logMonitor.go, `circularBuffer.Write`: an input that is shorter than the buffer.
use llama_swap.Base.{
  ℕ, ◌+◌, ◌-◌, ◌%◌, ◌≤◌, ◌<◌, ◌≡◌, sym, ap, ◌∙◌, List, ◌++◌, arith, append_assoc, length, take,
  drop, copy_at, last_n, leb, ltb, length-append, length-take, length-drop, length-copy_at,
  take-append-drop, drop-append_le, drop-drop, Bool-cases, inl, inr,
}
use native.Mathlib.Nat.{mod-lt}
use llama_swap.LogMonitor.Buffer.{CircularBuffer, grow, place, get_history}
use llama_swap.LogMonitor.Rotation.{rotate, rotate_flat, rotate_wrap}
use llama_swap.LogMonitor.History.{IsValid, length-rotate, history-rotate}

split_in_three :
    (xs : List ℕ) (h n : ℕ) → take h xs ++ (take n (drop h xs) ++ drop n (drop h xs)) ≡ xs
split_in_three xs h n = rw (take-append-drop n (drop h xs), take-append-drop h xs)

place_flat :
    (xs p : List ℕ) (h : ℕ)
    → h < length xs
    → length p ≤ length xs - h
    → rotate ((h + length p) % length xs) (copy_at xs h p) ≡ drop (length p) (rotate h xs) ++ p
place_flat xs p h lt le =
    let us = take h xs in
    let rest = drop h xs in
    let whole = split_in_three xs h (length p) in
    let lu : length us ≡ h = omega (arith, length-take h xs) in
    let lr : length rest ≡ length xs - h = length-drop h xs in
    let lv : length (take (length p) rest) ≡ length p =
      omega (arith, length-take (length p) rest) in
    rw (whole, lu) at
      (rotate_flat us (take (length p) rest) (drop (length p) rest) p (length xs) lv
        (omega (arith, length-drop (length p) rest)) (omega arith))

place_wrap :
    (xs p : List ℕ) (h : ℕ)
    → h < length xs
    → length p < length xs
    → length xs - h < length p
    → let first = length xs - h in
      rotate (length p - first) (copy_at (copy_at xs h (take first p)) 0 (drop first p))
      ≡ drop (length p) (rotate h xs) ++ p
place_wrap xs p h lt le gt =
    let first = length xs - h in
    let k = length p - first in
    let us = take k (take h xs) in
    let vs = drop k (take h xs) in
    let whole : us ++ (vs ++ drop h xs) ≡ xs =
      sym (append_assoc us vs (drop h xs))
      ∙ ap (λ (t : List ℕ). t ++ drop h xs) (take-append-drop k (take h xs))
      ∙ take-append-drop h xs in
    let lt' : length (take h xs) ≡ h = omega (arith, length-take h xs) in
    let lu : length us ≡ k = omega (arith, length-take k (take h xs)) in
    let luv : length us + length vs ≡ h = omega (arith, length-drop k (take h xs)) in
    let lp : length (take first p) ≡ first = omega (arith, length-take first p) in
    let lq : length (drop first p) ≡ k = length-drop first p in
    let sum : length (take first p) + length (drop first p) ≡ length p = omega arith in
    let turned =
      rotate_wrap us vs (drop h xs) (take first p) (drop first p) (length-drop h xs ∙ sym lp)
        (lu ∙ sym lq) in
    rw (whole, luv, sum, take-append-drop first p, lq) at turned

-- What a write shorter than the buffer does to the reading round from the write position.
rotate-place :
    (cb : CircularBuffer) (p : List ℕ)
    → IsValid cb
    → length p < length cb.bytes
    → rotate (place cb p).head (place cb p).bytes ≡ drop (length p) (rotate cb.head cb.bytes) ++ p
unfolding place
rotate-place cb p v lt = elim (Bool-cases (leb (length p) (length cb.bytes - cb.head))) [
  | inl e ↦ rw e (place_flat cb.bytes p cb.head v.head_in (ground arith))
  | inr e ↦ rw e (place_wrap cb.bytes p cb.head v.head_in lt (ground arith))
]

pub length-place : (cb : CircularBuffer) (p : List ℕ) → length (place cb p).bytes ≡ length cb.bytes
unfolding place
length-place cb p =
    let first = length cb.bytes - cb.head in
    ground (
      arith,
      length-copy_at cb.bytes cb.head p,
      length-copy_at cb.bytes cb.head (take first p),
      length-copy_at (copy_at cb.bytes cb.head (take first p)) 0 (drop first p),
    )

pub size-place :
    (cb : CircularBuffer) (p : List ℕ)
    → (place cb p).size ≡ grow (length cb.bytes) cb.size (length p)
unfolding place
size-place cb p = ground arith

pub head-place :
    (cb : CircularBuffer) (p : List ℕ)
    → IsValid cb
    → length p < length cb.bytes
    → (place cb p).head < length cb.bytes
unfolding place
head-place cb p v lt = ground (arith, mod-lt (cb.head + length p) {m = length cb.bytes}, v.room)

pub place-IsValid :
    (cb : CircularBuffer) (p : List ℕ)
    → IsValid cb
    → length p < length cb.bytes
    → IsValid (place cb p)
place-IsValid cb p v lt = ground (arith, length-place cb p, size-place cb p, head-place cb p v lt)

-- The last bytes of a history that grew by `p`, for a rotated buffer `r`.
pub last_n-grow :
    (r p : List ℕ) (n s : ℕ)
    → length r ≡ n
    → s ≤ n
    → length p ≤ n
    → drop (n - grow n s (length p)) (drop (length p) r ++ p) ≡ last_n n (drop (n - s) r ++ p)
last_n-grow r p n s e le lp =
    let d : length (drop (n - s) r) ≡ s = omega (arith, length-drop (n - s) r) in
    let l : length (drop (n - s) r ++ p) ≡ s + length p =
      omega (arith, length-append (drop (n - s) r) p) in
    let dl : length (drop (length p) r) ≡ n - length p = omega (arith, length-drop (length p) r) in
    elim (Bool-cases (ltb n (s + length p))) [
      | inl over ↦
          let lt : n < s + length p = ground arith in
          let all : n - n ≡ 0 = omega arith in
          let m : (n - s) + (s + length p - n) ≡ length p = omega arith in
          rw (
            over,
            l,
            all,
            drop-append_le (s + length p - n) (drop (n - s) r) p (omega arith),
            drop-drop (s + length p - n) (n - s) r,
            m,
          )
      | inr fits ↦
          let le' : s + length p ≤ n = ground arith in
          let zip : s + length p - n ≡ 0 = omega arith in
          let m : length p + (n - (s + length p)) ≡ n - s = omega arith in
          rw (
            fits,
            l,
            zip,
            drop-append_le (n - (s + length p)) (drop (length p) r) p (omega arith),
            drop-drop (n - (s + length p)) (length p) r,
            m,
          )
    ]

pub history-place :
    (cb : CircularBuffer) (p : List ℕ)
    → IsValid cb
    → length p < length cb.bytes
    → get_history (place cb p) ≡ last_n (length cb.bytes) (get_history cb ++ p)
history-place cb p v lt =
    rw
      (
        history-rotate v,
        history-rotate (place-IsValid cb p v lt),
        length-place cb p,
        size-place cb p,
        rotate-place cb p v lt,
      )
      (last_n-grow (rotate cb.head cb.bytes) p (length cb.bytes) cb.size
        (length-rotate cb.head cb.bytes) v.size_in (omega arith))
