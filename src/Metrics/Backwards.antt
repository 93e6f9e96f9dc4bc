-- ===== src/Metrics/Backwards.antt =====
-- proxy/metrics_monitor.go: the loop of `processStreamingResponse` against a plain search of the
-- lines.
use mathlib.Core.List.{reverse, reverse-append}
use llama_swap.Base.{
  ℕ, zero, suc, ◌-◌, ◌≤◌, ◌<◌, ◌≡◌, refl, ap, ◌∙◌, inl, inr, List, [], ◌∷◌, ◌++◌, Option, none,
  some, Bool, true, false, ◌==◌, ==_iff, length, take, drop, slice, length-take, take_all,
  drop-take, arith, Bool-cases,
}
use llama_swap.Base.Text.{Text, text_eq, split, push_head, trim_space, trim_left}
use llama_swap.Base.Bytes.{later_index, last_index_byte}
use llama_swap.Metrics.Parse.{
  Gjson, usable, or_found, line_start, scan_back, metrics_found, process_streaming_response,
}

-- A split at the last separator.
abbrev SplitLast : Text → Option ℕ → Type 0
SplitLast s none = split 10 s ≡ s ∷ []
SplitLast s (some i) = (split 10 s ≡ split 10 (take i s) ++ (drop (suc i) s ∷ [])) × (i < length s)

split_filled : (s : Text) → (t : Text) × (ts : List Text) × (split 10 s ≡ t ∷ ts)
unfolding split
split_filled [] = ([], [], refl)
split_filled (c ∷ s) =
    let (t, ts, e) = split_filled s in
    elim (Bool-cases (c == 10)) [
      | inl h ↦ ([], split 10 s, rw h refl)
      | inr h ↦ (c ∷ t, ts, rw (h, e) refl)
    ]

push_head-append :
    (c : ℕ) (s u : Text)
    → push_head c (split 10 s ++ (u ∷ [])) ≡ push_head c (split 10 s) ++ (u ∷ [])
push_head-append c s u = let (t, ts, e) = split_filled s in rw e refl

split_step :
    (c : ℕ) (s : Text) (b : Bool) (o : Option ℕ)
    → (c == 10) ≡ b
    → SplitLast s o
    → SplitLast (c ∷ s) (later_index b o)
unfolding split
split_step c s true none h a = rw h (ap (λ (x : List Text). [] ∷ x) a, omega arith)
split_step c s false none h a = rw (h, a) refl
split_step c s true (some i) h (a, l) = (rw h (ap (λ (x : List Text). [] ∷ x) a), omega arith)
split_step c s false (some i) h (a, l) =
    (rw (h, a) (push_head-append c (take i s) (drop (suc i) s)), omega arith)

split_last : (s : Text) → SplitLast s (last_index_byte 10 s)
unfolding last_index_byte
split_last [] = unfold split in refl
split_last (c ∷ s) = split_step c s (c == 10) (last_index_byte 10 s) refl (split_last s)

take-take : (i n : ℕ) (s : Text) → i ≤ n → take i (take n s) ≡ take i s
take-take zero n s h = refl
take-take (suc i) zero s h = absurd (omega arith)
take-take (suc i) (suc n) [] h = refl
take-take (suc i) (suc n) (c ∷ s) h = ap (◌∷◌ c) (take-take i n s (omega arith))

module _ (g : Gjson) where
  -- The first usable one of some lines.
  abbrev pub first_usable : List Text → Option (g.Json × g.Json)
  first_usable [] = none
  first_usable (l ∷ ls) = or_found g (usable g (trim_space l)) (first_usable ls)

  unusable_empty : usable g [] ≡ none
  unfolding usable text_eq
  unusable_empty = refl

  nothing_before : (fuel : ℕ) (body : Text) → scan_back g fuel body 0 ≡ none
  unfolding scan_back
  nothing_before zero body = refl
  nothing_before (suc fuel) body = refl

  scan_step :
      (fuel : ℕ) (body : Text) (upto : ℕ) (o : Option ℕ)
      → 0 < upto
      → upto ≤ length body
      → SplitLast (take upto body) o
      → ((i : ℕ)
          → i < upto
          → scan_back g fuel body i ≡ first_usable (reverse (split 10 (take i body))))
      → or_found g
          (usable g (trim_space (slice body (line_start o) upto)))
          (scan_back g fuel body (line_start o - 1))
        ≡ first_usable (reverse (split 10 (take upto body)))
  scan_step fuel body upto none p l a ih =
      let e : upto - 0 ≡ upto = omega arith in rw (a, e, nothing_before fuel body) refl
  scan_step fuel body upto (some i) p l (a, below) ih =
      let e : suc i - 1 ≡ i = omega arith in
      let near : i < upto = omega (arith, length-take upto body) in
      rw (a, e, ih i near, reverse-append, take-take i upto body (omega arith), drop-take) refl

  scan_back_lem :
      (fuel : ℕ) (body : Text) (upto : ℕ)
      → upto < fuel
      → upto ≤ length body
      → scan_back g fuel body upto ≡ first_usable (reverse (split 10 (take upto body)))
  unfolding scan_back split trim_space trim_left
  scan_back_lem zero body upto h l = absurd (omega arith)
  scan_back_lem (suc fuel) body upto h l = elim (Bool-cases (upto == 0)) [
    | inl at_begin ↦ rw ((==_iff upto 0).0 at_begin, unusable_empty) refl
    | inr inside ↦ rw inside (
        scan_step fuel body upto (last_index_byte 10 (take upto body)) (ground arith) l
          (split_last (take upto body))
          (λ i near. scan_back_lem fuel body i (omega arith) (omega arith)))
  ]

  -- The loop from the end of a stream reads the same as a search of all its lines, the last first:
  -- the metrics are those of the last line that has data with `usage` or `timings`, and it fails
  -- exactly if no line has.
  pub process_streaming_response_lem :
      (model : Text) (now elapsed : ℕ) (body : Text)
      → process_streaming_response g model now elapsed body
        ≡ metrics_found g model now elapsed (first_usable (reverse (split 10 body)))
  unfolding process_streaming_response
  process_streaming_response_lem model now elapsed body = ap (metrics_found g model now elapsed) (
      scan_back_lem (suc (length body)) body (length body) (omega arith) (omega arith)
      ∙ ap (λ (s : Text). first_usable (reverse (split 10 s)))
          (take_all (length body) body (omega arith)))
