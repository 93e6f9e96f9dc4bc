-- ===== src/Metrics/Recording.antt =====
-- proxy/metrics_monitor.go: what `wrapHandler` records, by how the exchange goes.
use llama_swap.Base.{
  ℕ, ◌+◌, ◌≡◌, refl, subst, inl, inr, [], ◌∷◌, ◌++◌, some, Bool, true, false, ◌&&◌, if◌then◌else◌,
  ltb, leb, ◌==◌, ==_iff, arith, Bool-cases,
}
use llama_swap.Base.Text.{Text}
use llama_swap.Metrics.Captures.{
  Capture, size, CaptureMap, find_capture, put_capture, bounded, add_metrics, keep_capture,
  add_capture, get_capture_by_id,
}
use llama_swap.Metrics.Parse.{Gjson, TokenMetrics}
use llama_swap.Metrics.Handler.{
  Recorded, Exchange, minimal, new_capture, Metrics, will_store, numbered_metric, with_capture,
  record_response, record_minimal,
}

find_put : (id : ℕ) (c : Capture) (a : CaptureMap) → find_capture id (put_capture id c a) ≡ some c
unfolding find_capture put_capture
find_put id c [] = rw ((==_iff id id).1 refl) refl
find_put id c ((i, d) ∷ a) = elim (Bool-cases (i == id)) [
  | inl here ↦ rw here (rw ((==_iff id id).1 refl) refl)
  | inr later ↦ rw later (rw later (find_put id c a))
]

module _ (g : Gjson) where
  -- One metric was recorded, and its flag says whether its capture can be had.
  pub record OneMore (m n : Metrics g) (t : TokenMetrics g.Float) : Type 0 where
    pub metrics : n.metrics ≡ bounded m.max_metrics (m.metrics ++ (t ∷ []))
    pub next_id : n.next_id ≡ m.next_id + 1
    pub own_id : t.id ≡ m.next_id
    pub emitted : n.emitted ≡ t ∷ m.emitted
    pub found :
        (if t.has_capture
          then ((c : Capture) × (get_capture_by_id n m.next_id ≡ some c) × (c.id ≡ m.next_id))
          else n.captures ≡ m.captures)

  pub minimal_lem :
      (m : Metrics g) (x : Exchange) (r : Recorded)
      → OneMore m (record_minimal g m x r) (record (minimal g x.model r) { id = m.next_id })
  unfolding add_metrics minimal
  minimal_lem m x r = record {
    metrics = refl;
    next_id = refl;
    own_id = refl;
    emitted = refl;
    found = refl;
  }

  -- What adding a capture leaves of the metrics, and whether it can be had.
  record Added (n : Metrics g) (c : Capture) : Type 0 where
    same_metrics : (add_capture n c).metrics ≡ n.metrics
    same_next_id : (add_capture n c).next_id ≡ n.next_id
    same_emitted : (add_capture n c).emitted ≡ n.emitted
    kept :
        ltb n.max_capture_size (size c) ≡ false
        → n.enable_captures ≡ true
        → get_capture_by_id (add_capture n c) c.id ≡ some c
    skipped : ltb n.max_capture_size (size c) ≡ true → (add_capture n c).captures ≡ n.captures

  add_capture-Added : (n : Metrics g) (c : Capture) → Added n c
  unfolding add_capture keep_capture get_capture_by_id
  add_capture-Added n c = record {
    same_metrics = ground arith;
    same_next_id = ground arith;
    same_emitted = ground arith;
    kept = λ fits on. rw (on, fits) (find_put c.id c _);
    skipped = λ over. ground (arith, over);
  }

  size_of_any :
      (x : Exchange) (r : Recorded) (content : Text) (id : ℕ)
      → size (new_capture g x r content id) ≡ size (new_capture g x r content 0)
  unfolding size new_capture
  size_of_any x r content id = refl

  new_capture-id :
      (x : Exchange) (r : Recorded) (content : Text) (id : ℕ)
      → (new_capture g x r content id).id ≡ id
  unfolding new_capture
  new_capture-id x r content id = refl

  with_capture_lem :
      (m : Metrics g) (x : Exchange) (r : Recorded) (content : Text) (on stored : Bool)
      → m.enable_captures ≡ on
      → stored ≡ (on && leb (size (new_capture g x r content 0)) m.max_capture_size)
      → OneMore m
          (with_capture g on x r content (add_metrics m (numbered_metric g x r content stored)))
          (numbered_metric g x r content stored m.next_id)
  unfolding add_metrics
  with_capture_lem m x r content false true e s = cc
  with_capture_lem m x r content false false e s = record {
    metrics = refl;
    next_id = refl;
    own_id = refl;
    emitted = refl;
    found = refl;
  }
  with_capture_lem m x r content true true e s =
      let c = new_capture g x r content m.next_id in
      let n = (add_metrics m (numbered_metric g x r content true)).0 in
      let a = add_capture-Added n c in
      let fits : ltb m.max_capture_size (size c) ≡ false =
        ground (arith, size_of_any x r content m.next_id, s) in
      record {
        metrics = a.same_metrics;
        next_id = a.same_next_id;
        own_id = refl;
        emitted = a.same_emitted;
        found = (
          c,
          subst (λ (id : ℕ). get_capture_by_id (add_capture n c) id ≡ some c)
              (new_capture-id x r content m.next_id) (a.kept fits e),
          new_capture-id x r content m.next_id,
        );
      }
  with_capture_lem m x r content true false e s =
      let c = new_capture g x r content m.next_id in
      let n = (add_metrics m (numbered_metric g x r content false)).0 in
      let a = add_capture-Added n c in
      let over : ltb m.max_capture_size (size c) ≡ true =
        ground (arith, size_of_any x r content m.next_id, s) in
      record {
        metrics = a.same_metrics;
        next_id = a.same_next_id;
        own_id = refl;
        emitted = a.same_emitted;
        found = a.skipped over;
      }

  pub record_response_lem :
      (m : Metrics g) (x : Exchange) (r : Recorded) (content : Text)
      → OneMore m
          (record_response g m x r content)
          (numbered_metric g x r content (will_store g m x r content) m.next_id)
  unfolding record_response will_store
  record_response_lem m x r content =
      with_capture_lem m x r content m.enable_captures (will_store g m x r content) refl refl
