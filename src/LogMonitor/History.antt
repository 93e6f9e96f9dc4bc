-- ===== src/LogMonitor/History.antt =====
-- proxy/logMonitor.go, `GetHistory`: the history is the end of the buffer read round from its write
-- position.
use llama_swap.Base.{
  true, false, ℕ, ◌+◌, ◌-◌, ◌%◌, ◌≤◌, ◌<◌, ◌≡◌, refl, sym, ◌∙◌, List, ◌++◌, arith, append-nil,
  length, take, drop, replicate, leb, ◌==◌, length-append, length-take, length-drop,
  length-replicate, take_all, drop_all, drop-append_left, drop-append_le, drop-drop, drop-take,
  copy_at_whole, copy_at_both, Bool-cases, inl, inr,
}
use native.Mathlib.Nat.{mod-eq_of_lt, add-mod_right}
use native.Mathlib.Decide.{dec_le}
use llama_swap.LogMonitor.Buffer.{CircularBuffer, gather, get_history}
use llama_swap.LogMonitor.Rotation.{rotate}

pub record IsValid (cb : CircularBuffer) : Type 0 where
  pub room : 0 < length cb.bytes
  pub head_in : cb.head < length cb.bytes
  pub size_in : cb.size ≤ length cb.bytes

pub length-rotate : (h : ℕ) (xs : List ℕ) → length (rotate h xs) ≡ length xs
length-rotate h xs =
    omega (arith, length-append (drop h xs) (take h xs), length-take h xs, length-drop h xs)

-- A stretch in one piece.
gather_one :
    (xs : List ℕ) (start n : ℕ) → start + n ≤ length xs → gather xs start n ≡ take n (drop start xs)
unfolding gather
gather_one xs start n h =
    let fits : leb (start + n) (length xs) ≡ true = ground arith in
    let e : start + n - start ≡ n = omega arith in
    rw (fits, e)
      (copy_at_whole (replicate n 0) (take n (drop start xs)) (
        omega (
          arith,
          length-replicate {A = ℕ} n 0,
          length-take n (drop start xs),
          length-drop start xs,
        )))

-- A stretch that goes round the end.
gather_two :
    (xs : List ℕ) (start n : ℕ)
    → length xs < start + n
    → start ≤ length xs
    → n ≤ length xs
    → gather xs start n ≡ drop start xs ++ take (n - (length xs - start)) xs
unfolding gather
gather_two xs start n h s k =
    let wraps : leb (start + n) (length xs) ≡ false = ground arith in
    let first = length xs - start in
    let e : n - first - 0 ≡ n - first = omega arith in
    let d : first ≡ length (drop start xs) = omega (arith, length-drop start xs) in
    rw (wraps, e, d)
      (copy_at_both (replicate n 0) (drop start xs) (take (n - length (drop start xs)) xs) (
        omega (
          arith,
          length-replicate {A = ℕ} n 0,
          length-take (n - length (drop start xs)) xs,
          length-drop start xs,
        )))

-- The bytes before the write position, in one piece.
behind :
    (xs : List ℕ) (h n : ℕ)
    → n ≤ h
    → h < length xs
    → gather xs (h - n) n ≡ drop (length xs - n) (rotate h xs)
behind xs h n le lt = gather_one xs (h - n) n (omega arith) ∙ sym ends
  where
    ends : drop (length xs - n) (rotate h xs) ≡ take n (drop (h - n) xs)
    ends =
        let d : length (drop h xs) ≡ length xs - h = length-drop h xs in
        let s : length xs - n ≡ length (drop h xs) + (h - n) = omega arith in
        let t : h - (h - n) ≡ n = omega arith in
        rw (
          s,
          ← drop-drop (h - n) (length (drop h xs)) (rotate h xs),
          drop-append_left (length (drop h xs)) (drop h xs) (take h xs) refl,
          drop-take (h - n) h xs,
          t,
        )

-- The bytes round the end.
around :
    (xs : List ℕ) (h n : ℕ)
    → h < n
    → n ≤ length xs
    → gather xs (h + length xs - n) n ≡ drop (length xs - n) (rotate h xs)
around xs h n lt le = elim (dec_le h 0) [
  | yes z ↦
      let z' : h ≡ 0 = omega arith in
      let start : 0 + length xs - n ≡ length xs - n = omega arith in
      let m : length (drop (length xs - n) xs) ≤ n =
        omega (arith, length-drop (length xs - n) xs) in
      rw (z', start, append-nil)
        (gather_one xs (length xs - n) n (omega arith) ∙ take_all n (drop (length xs - n) xs) m)
  | no pos ↦
      let d : length (drop h xs) ≡ length xs - h = length-drop h xs in
      let s : h + length xs - n ≡ h + (length xs - n) = omega arith in
      let t : n - (length xs - (h + (length xs - n))) ≡ h = omega arith in
      let two = gather_two xs (h + (length xs - n)) n (omega arith) (omega arith) le in
      rw
        (
          s,
          drop-append_le (length xs - n) (drop h xs) (take h xs) (omega arith),
          drop-drop (length xs - n) h xs,
        )
        (rw t at two)
]

window :
    (xs : List ℕ) (h n : ℕ)
    → h < length xs
    → n ≤ length xs
    → 0 < n
    → gather xs ((h + length xs - n) % length xs) n ≡ drop (length xs - n) (rotate h xs)
window xs h n lt le pos = elim (dec_le n h) [
  | yes w ↦
      let m : h + length xs - n ≡ (h - n) + length xs = omega arith in
      rw
        (
          m,
          add-mod_right (h - n) (length xs),
          mod-eq_of_lt {n = h - n} {m = length xs} (omega arith),
        )
        (behind xs h n w lt)
  | no w ↦
      rw (mod-eq_of_lt {n = h + length xs - n} {m = length xs} (omega arith))
        (around xs h n (omega arith) le)
]

-- The history is the end of the rotated buffer.
pub history-rotate :
    {cb : CircularBuffer}
    → IsValid cb
    → get_history cb ≡ drop (length cb.bytes - cb.size) (rotate cb.head cb.bytes)
unfolding get_history
history-rotate {cb} v = elim (Bool-cases (cb.size == 0)) [
  | inl e ↦ rw e (
      sym (
        drop_all (length cb.bytes - cb.size) (rotate cb.head cb.bytes)
          (let z : cb.size ≡ 0 = ground arith in omega (arith, length-rotate cb.head cb.bytes))))
  | inr e ↦ rw e (window cb.bytes cb.head cb.size v.head_in v.size_in (ground arith))
]
