-- ===== src/Metrics/Sequences.antt =====
-- proxy/metrics_monitor.go: what the monitor has after many calls of `addMetrics` and `addCapture`.
use llama_swap.Base.{
  ℕ, ◌+◌, ◌-◌, ◌≤◌, ◌*◌, ◌≡◌, refl, sym, ap, subst, ◌∙◌, inl, inr, List, [], ◌∷◌, ◌++◌, true, ltb,
  length, drop_all, last_n, last_n-append, append_assoc, append-nil, arith, Bool-cases,
}
use llama_swap.Metrics.Captures.{
  Capture, CaptureMap, find_capture, Monitor, new_metrics_monitor, bounded, add_metrics,
  keep_capture, add_capture, get_capture_by_id, get_metrics,
}
use llama_swap.Metrics.Eviction.{total, Fresh, fitting, fitting-bound}
use llama_swap.Metrics.History.{accepted_after, accepted, Holds, add_capture-Holds}

-- A call: a metric, which takes its id from the monitor, or a capture.
pub data Call {ℓ} (M : Type ℓ) : Type ℓ where
  metric : (ℕ → M) → Call M
  capture : Capture → Call M

module _ {ℓ} {M : Type ℓ} where
  abbrev pub call : Monitor M → Call M → Monitor M
  call m (metric f) = (add_metrics m f).0
  call m (capture c) = add_capture m c

  abbrev pub call_all : Monitor M → List (Call M) → Monitor M
  call_all m [] = m
  call_all m (x ∷ calls) = call_all (call m x) calls

  -- The metrics with the ids that the calls give them, from `n` on.
  abbrev pub numbered : ℕ → List (Call M) → List M
  numbered n [] = []
  numbered n (metric f ∷ calls) = f n ∷ numbered (n + 1) calls
  numbered n (capture c ∷ calls) = numbered n calls

  abbrev pub captures_of : List (Call M) → List Capture
  captures_of [] = []
  captures_of (metric f ∷ calls) = captures_of calls
  captures_of (capture c ∷ calls) = c ∷ captures_of calls

  -- Each capture has an id that no accepted one before it has.
  abbrev pub NewIds : ℕ → CaptureMap → List (Call M) → Type 0
  NewIds max all [] = Unit
  NewIds max all (metric f ∷ calls) = NewIds max all calls
  NewIds max all (capture c ∷ calls) = Fresh c.id all × NewIds max (accepted_after max all c) calls

  bounded_last : (max : ℕ) (ms : List M) → bounded max ms ≡ last_n max ms
  bounded_last max ms = elim (Bool-cases (ltb max (length ms))) [
    | inl over ↦ rw over refl
    | inr fits ↦ let e : length ms - max ≡ 0 = ground arith in rw (fits, e) refl
  ]

  -- The calls leave the limits of the monitor alone.
  record SameLimits (m n : Monitor M) : Type 0 where
    max_metrics : n.max_metrics ≡ m.max_metrics
    max_captures : n.max_capture_size ≡ m.max_capture_size
    enabled : n.enable_captures ≡ m.enable_captures

  call-SameLimits : (m : Monitor M) (x : Call M) → SameLimits m (call m x)
  unfolding add_metrics add_capture keep_capture
  call-SameLimits m (metric f) = record { max_metrics = refl; max_captures = refl; enabled = refl }
  call-SameLimits m (capture c) = record {
    max_metrics = ground arith;
    max_captures = ground arith;
    enabled = ground arith;
  }

  same_metrics :
      (m : Monitor M) (c : Capture)
      → ((add_capture m c).metrics ≡ m.metrics) × ((add_capture m c).next_id ≡ m.next_id)
  unfolding add_capture keep_capture
  same_metrics m c = ground arith

  metrics_from :
      (m : Monitor M) (calls : List (Call M)) (past : List M)
      → m.metrics ≡ last_n m.max_metrics past
      → (call_all m calls).metrics ≡ last_n m.max_metrics (past ++ numbered m.next_id calls)
  unfolding add_metrics
  metrics_from m [] past h = h ∙ ap (last_n m.max_metrics) (sym (append-nil past))
  metrics_from m (metric f ∷ calls) past h =
      let x = f m.next_id in
      metrics_from (add_metrics m f).0 calls (past ++ (x ∷ [])) (
        bounded_last m.max_metrics (m.metrics ++ (x ∷ []))
        ∙ ap (λ (ms : List M). last_n m.max_metrics (ms ++ (x ∷ []))) h
        ∙ last_n-append m.max_metrics past (x ∷ []))
      ∙ ap (last_n m.max_metrics) (append_assoc past (x ∷ []) (numbered (m.next_id + 1) calls))
  metrics_from m (capture c ∷ calls) past h =
      let s = call-SameLimits m (capture c) in
      let (same, id) = same_metrics m c in
      metrics_from (add_capture m c) calls past
        (same ∙ h ∙ ap (λ (k : ℕ). last_n k past) (sym s.max_metrics))
      ∙ ap (λ (k : ℕ). last_n k (past ++ numbered (add_capture m c).next_id calls)) s.max_metrics
      ∙ ap (λ (n : ℕ). last_n m.max_metrics (past ++ numbered n calls)) id

  metric-Holds :
      (m : Monitor M) (f : ℕ → M) (all : CaptureMap) → Holds m all → Holds (add_metrics m f).0 all
  unfolding add_metrics
  metric-Holds m f all h = record {
    stored = h.stored;
    in_order = h.in_order;
    counted = h.counted;
    distinct = h.distinct;
  }

  captures_from :
      (m : Monitor M) (calls : List (Call M)) (all : CaptureMap)
      → m.enable_captures ≡ true
      → Holds m all
      → NewIds m.max_capture_size all calls
      → Holds (call_all m calls) (accepted m.max_capture_size all (captures_of calls))
  unfolding add_metrics
  captures_from m [] all on h new = h
  captures_from m (metric f ∷ calls) all on h new =
      captures_from (add_metrics m f).0 calls all on (metric-Holds m f all h) new
  captures_from m (capture c ∷ calls) all on h new =
      let s = call-SameLimits m (capture c) in
      let next = accepted_after m.max_capture_size all c in
      subst
        (λ (x : ℕ). Holds (call_all (add_capture m c) calls) (accepted x next (captures_of calls)))
        s.max_captures
        (captures_from (add_capture m c) calls next (s.enabled ∙ on)
          (add_capture-Holds m c all on h new.0)
          (subst (λ (x : ℕ). NewIds x next calls) (sym s.max_captures) new.1))

  call_all-max :
      (m : Monitor M) (calls : List (Call M))
      → (call_all m calls).max_capture_size ≡ m.max_capture_size
  call_all-max m [] = refl
  call_all-max m (x ∷ calls) = call_all-max (call m x) calls ∙ (call-SameLimits m x).max_captures

  -- A monitor that began new, with room for captures, after any calls in which no two captures have
  -- one id. It has the last metrics, as many as it may keep, each with the number of the metrics
  -- before it as its id. By its id it finds a capture exactly if that is in the longest end, of the
  -- captures that were small enough on their own, whose sizes together are within the limit.
  pub call_all-metrics_captures :
      (max megabytes : ℕ) (calls : List (Call M)) (id : ℕ)
      → ltb 0 megabytes ≡ true
      → NewIds (megabytes * 1024 * 1024) [] calls
      → let m = call_all (new_metrics_monitor max megabytes) calls in
        let limit = megabytes * 1024 * 1024 in
        let kept = fitting limit 0 (accepted limit [] (captures_of calls)) in
        (get_metrics m ≡ last_n max (numbered 0 calls))
        × (get_capture_by_id m id ≡ find_capture id kept)
        × (m.capture_size ≡ total kept)
        × (m.capture_size ≤ limit)
  unfolding new_metrics_monitor get_capture_by_id get_metrics
  call_all-metrics_captures max megabytes calls id on new =
      let limit = megabytes * 1024 * 1024 in
      let start = new_metrics_monitor max megabytes in
      let all = accepted limit [] (captures_of calls) in
      let h =
        captures_from start calls [] on
          (record { stored = refl; in_order = refl; counted = refl; distinct = tt }) new in
      let stored : (call_all start calls).captures ≡ fitting limit 0 all =
        h.stored ∙ ap (λ (k : ℕ). fitting k 0 all) (call_all-max start calls) in
      let counted = h.counted ∙ ap total stored in
      (
        metrics_from start calls [] (sym (drop_all (0 - max) [] (omega arith))),
        ap (find_capture id) stored,
        counted,
        omega (arith, counted, fitting-bound limit 0 all),
      )
