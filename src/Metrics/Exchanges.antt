-- ===== src/Metrics/Exchanges.antt =====
-- proxy/metrics_monitor.go: how an exchange ends.
use llama_swap.Base.{
  ◌≡◌, refl, inl, inr, [], Option, none, some, Bool, true, false, if◌then◌else◌, ◌==◌, Bool-cases,
}
use llama_swap.Base.Text.{Text, codes, text_eq}
use llama_swap.Metrics.Parse.{Gjson, TokenMetrics}
use llama_swap.Metrics.Headers.{get_header}
use llama_swap.Metrics.Handler.{
  filtered_request, Recorded, Exchange, BodyRead, no_body, read_fails, body, WrapError,
  request_body_failed, next_failed, decompress_body, minimal, Metrics, will_store, numbered_metric,
  record_decompressed, after_next, on_next, read_and_next, wrap_handler,
}
use llama_swap.Metrics.Recording.{OneMore, minimal_lem, record_response_lem}

module _ (g : Gjson) where
  -- The content of a response as the monitor reads it.
  abbrev pub content_of : Exchange → Recorded → Option Text
  content_of x r =
      let encoding = get_header r.headers (codes "Content-Encoding") in
      if text_eq encoding [] then some r.sent else decompress_body x r.sent encoding

  -- The metric of an exchange that reached the client: parsed from the content if there is any.
  abbrev pub metric_of_content :
      Metrics g → Exchange → Recorded → Option Text → TokenMetrics g.Float
  metric_of_content m x r none = record (minimal g x.model r) { id = m.next_id }
  metric_of_content m x r (some content) =
      numbered_metric g x r content (will_store g m x r content) m.next_id

  abbrev pub metric_of : Metrics g → Exchange → Recorded → TokenMetrics g.Float
  metric_of m x r = metric_of_content m x r (if text_eq r.sent [] then none else content_of x r)

  record_decompressed_lem :
      (m : Metrics g) (x : Exchange) (r : Recorded) (o : Option Text)
      → OneMore g m (record_decompressed g m x r o) (metric_of_content m x r o)
  record_decompressed_lem m x r none = minimal_lem g m x r
  record_decompressed_lem m x r (some content) = record_response_lem g m x r content

  -- What a handled exchange leaves, by the error and by what the wrapped handler gave.
  abbrev pub Recording : Metrics g → Exchange → Option Recorded → Metrics g → Type 0
  Recording m x none n = n ≡ m
  Recording m x (some r) n = if r.status == 200 then OneMore g m n (metric_of m x r) else n ≡ m

  abbrev pub WrapEnd : Metrics g → Exchange → Option WrapError → Metrics g → Type 0
  WrapEnd m x (some request_body_failed) n =
      (m.enable_captures ≡ true) × (x.body_read ≡ read_fails) × (n ≡ m)
  WrapEnd m x (some next_failed) n = (x.next (filtered_request x.headers) ≡ none) × (n ≡ m)
  WrapEnd m x none n =
      (r : Recorded) × (x.next (filtered_request x.headers) ≡ some r) × Recording m x (some r) n

  after_next_lem :
      (m : Metrics g) (x : Exchange) (r : Recorded) → Recording m x (some r) (after_next g m x r)
  unfolding after_next
  after_next_lem m x r = elim (Bool-cases (r.status == 200)) [
    | inl fine ↦ rw fine (elim (Bool-cases (text_eq r.sent [])) [
      | inl empty ↦ rw empty (minimal_lem g m x r)
      | inr filled ↦ rw filled (record_decompressed_lem m x r (content_of x r))
    ])
    | inr refused ↦ rw refused refl
  ]

  on_next_lem :
      (m : Metrics g) (x : Exchange) (o : Option Recorded)
      → x.next (filtered_request x.headers) ≡ o
      → WrapEnd m x (on_next g m x o).0 (on_next g m x o).1
  on_next_lem m x none e = (e, refl)
  on_next_lem m x (some r) e = (r, e, after_next_lem m x r)

  read_and_next_lem :
      (m : Metrics g) (x : Exchange) (on : Bool) (b : BodyRead)
      → m.enable_captures ≡ on
      → x.body_read ≡ b
      → WrapEnd m x (read_and_next g m x on b).0 (read_and_next g m x on b).1
  read_and_next_lem m x true no_body e f =
      on_next_lem m x (x.next (filtered_request x.headers)) refl
  read_and_next_lem m x true read_fails e f = (e, f, refl)
  read_and_next_lem m x true (body t) e f =
      on_next_lem m x (x.next (filtered_request x.headers)) refl
  read_and_next_lem m x false no_body e f =
      on_next_lem m x (x.next (filtered_request x.headers)) refl
  read_and_next_lem m x false read_fails e f =
      on_next_lem m x (x.next (filtered_request x.headers)) refl
  read_and_next_lem m x false (body t) e f =
      on_next_lem m x (x.next (filtered_request x.headers)) refl

  -- How a wrapped exchange ends. It fails only if captures are on and the request's body cannot be
  -- read, or if the wrapped handler fails, and then nothing is recorded. A response whose status is
  -- not 200 records nothing either. Every other one records and emits exactly one metric with the
  -- next id, parsed from the content if there is any that can be decompressed; its `HasCapture` is
  -- set exactly if the exchange's capture was stored, and then the capture can be had by the
  -- metric's id, else the captures are as before.
  pub wrap_handler-WrapEnd :
      (m : Metrics g) (x : Exchange) → WrapEnd m x (wrap_handler g m x).0 (wrap_handler g m x).1
  unfolding wrap_handler
  wrap_handler-WrapEnd m x = read_and_next_lem m x m.enable_captures x.body_read refl refl
