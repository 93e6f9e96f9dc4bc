-- ===== src/Metrics/History.antt =====
-- proxy/metrics_monitor.go: what the monitor holds after many requests.
use llama_swap.Base.{
  ℕ, ◌≡◌, sym, ap, subst, ◌∙◌, if_true, inl, inr, List, [], ◌∷◌, ◌++◌, true, false, if◌then◌else◌,
  ltb, ◌==◌, arith, Bool-cases,
}
use llama_swap.Metrics.Captures.{
  Capture, size, CaptureMap, put_capture, evict, keep_capture, Monitor, add_capture,
}
use llama_swap.Metrics.Eviction.{
  ids, total, total-append, ids-append, Fresh, Distinct, fitting, fitting-Fresh, fitting-Distinct,
  put-Fresh, buffer_of, evict-fitting, fitting-fitting, fitting-append,
}

-- The captures that were small enough, in the order of the calls.
abbrev pub accepted_after : ℕ → CaptureMap → Capture → CaptureMap
accepted_after max all c = if ltb max (size c) then all else all ++ ((c.id, c) ∷ [])

abbrev pub accepted : ℕ → CaptureMap → List Capture → CaptureMap
accepted max all [] = all
accepted max all (c ∷ cs) = accepted max (accepted_after max all c) cs

Fresh-append :
    (a : CaptureMap) (j i : ℕ) (c : Capture)
    → Fresh j a
    → (i == j) ≡ false
    → Fresh j (a ++ ((i, c) ∷ []))
Fresh-append [] j i c f n = (n, tt)
Fresh-append ((k, e) ∷ a) j i c f n = (f.0, Fresh-append a j i c f.1 n)

Distinct-append :
    (a : CaptureMap) (i : ℕ) (c : Capture) → Distinct a → Fresh i a → Distinct (a ++ ((i, c) ∷ []))
Distinct-append [] i c d f = (tt, tt)
Distinct-append ((j, e) ∷ a) i c d f =
    let other : (i == j) ≡ false = ground (arith, f.0) in
    (Fresh-append a j i c d.0 other, Distinct-append a i c d.1 f.1)

module _ {ℓ} {M : Type ℓ} where
  -- The buffer of captures holds the end that fits of the captures accepted so far.
  pub record Holds (m : Monitor M) (all : CaptureMap) : Type 0 where
    pub stored : m.captures ≡ fitting m.max_capture_size 0 all
    pub in_order : m.capture_order ≡ ids m.captures
    pub counted : m.capture_size ≡ total m.captures
    pub distinct : Distinct all

  same_limits :
      (m : Monitor M) (c : Capture)
      → ((add_capture m c).max_capture_size ≡ m.max_capture_size)
        × ((add_capture m c).enable_captures ≡ m.enable_captures)
  unfolding add_capture keep_capture
  same_limits m c = ground arith

  -- The buffer that the eviction for a capture leaves.
  room_for :
      (m : Monitor M) (c : Capture) (all : CaptureMap)
      → Holds m all
      → evict m.max_capture_size (size c) m.captures m.capture_order m.capture_size
        ≡ buffer_of (fitting m.max_capture_size (size c) all)
  room_for m c all h =
      let max = m.max_capture_size in
      rw (h.in_order, h.counted, h.stored)
        (evict-fitting max (size c) (fitting max 0 all) (fitting-Distinct max 0 all h.distinct)
          ∙ ap buffer_of (fitting-fitting max (size c) all))

  stored_after :
      (m : Monitor M) (c : Capture) (all : CaptureMap)
      → Holds m all
      → Fresh c.id all
      → ltb m.max_capture_size (size c) ≡ false
      → put_capture c.id c (fitting m.max_capture_size (size c) all)
        ≡ fitting m.max_capture_size 0 (all ++ ((c.id, c) ∷ []))
  stored_after m c all h f fits =
      let max = m.max_capture_size in
      put-Fresh c.id c (fitting max (size c) all) (fitting-Fresh max (size c) c.id all f)
      ∙ fitting-append max c.id c all fits

  keep_capture-Holds :
      (m : Monitor M) (c : Capture) (all : CaptureMap)
      → Holds m all
      → Fresh c.id all
      → Holds (keep_capture m c) (accepted_after m.max_capture_size all c)
  unfolding keep_capture
  keep_capture-Holds m c all h f = elim (Bool-cases (ltb m.max_capture_size (size c))) [
    | inl over ↦ rw over h
    | inr fits ↦
        let F = fitting m.max_capture_size (size c) all in
        let put = put-Fresh c.id c F (fitting-Fresh m.max_capture_size (size c) c.id all f) in
        rw fits (
          rw (room_for m c all h) (record {
            stored = stored_after m c all h f fits;
            in_order = sym (ap ids put ∙ ids-append F ((c.id, c) ∷ []));
            counted = sym (ap total put ∙ total-append F ((c.id, c) ∷ []) ∙ omega arith);
            distinct = Distinct-append all c.id c h.distinct f;
          }))
  ]

  pub add_capture-Holds :
      (m : Monitor M) (c : Capture) (all : CaptureMap)
      → m.enable_captures ≡ true
      → Holds m all
      → Fresh c.id all
      → Holds (add_capture m c) (accepted_after m.max_capture_size all c)
  unfolding add_capture
  add_capture-Holds m c all on h f =
      subst (λ (x : Monitor M). Holds x (accepted_after m.max_capture_size all c))
        (sym (if_true m.enable_captures (keep_capture m c) m on)) (keep_capture-Holds m c all h f)
