-- ===== src/Metrics/Handler.antt =====
-- proxy/metrics_monitor.go: `wrapHandler` and `decompressBody`.
use llama_swap.Base.{
  ℕ, List, [], ◌∷◌, Option, none, some, Bool, true, false, if◌then◌else◌, ◌||◌, ◌&&◌, not, leb,
  ◌==◌,
}
use llama_swap.Base.Text.{Text, codes, text_eq, contains_text, has_prefix, trim_space}
use llama_swap.Base.Bytes.{to_lower}
use llama_swap.Base.Dict.{insert, delete}
use llama_swap.Base.Integer.{pos}
use llama_swap.Metrics.Captures.{Capture, size, Monitor, add_metrics, add_capture}
use llama_swap.Metrics.Parse.{Gjson, TokenMetrics, parse_metrics, process_streaming_response}
use llama_swap.Metrics.Headers.{
  Header, get_header, first_values, redact_headers, filter_accept_encoding,
}

-- What reading the request's body gives.
pub data BodyRead : Type 0 where
  no_body read_fails : BodyRead
  body : Text → BodyRead

-- What the recorder has once the wrapped handler returns.
pub record Recorded : Type 0 where
  pub status : ℕ
  pub sent : Text
  pub headers : Header
  pub now : ℕ
  pub elapsed : ℕ

-- The request, the handler that is wrapped (none is its error), and the packages gzip and flate.
pub record Exchange : Type 0 where
  pub model : Text
  pub path : Text
  pub headers : Header
  pub body_read : BodyRead
  pub next : Header → Option Recorded
  pub gunzip : Text → Option Text
  pub inflate : Text → Option Text

pub data WrapError : Type 0 where
  request_body_failed next_failed : WrapError

unfoldable pub decompress_body : Exchange → Text → Text → Option Text
unfolding to_lower trim_space text_eq
decompress_body x sent encoding =
    let name = to_lower (trim_space encoding) in
    if text_eq name (codes "gzip")
    then x.gunzip sent
    else if text_eq name (codes "deflate")
    then x.inflate sent
    else some sent

abbrev pub body_or_empty : BodyRead → Text
body_or_empty no_body = []
body_or_empty read_fails = []
body_or_empty (body b) = b

-- The request's headers after the filter of `Accept-Encoding`.
unfoldable pub filtered_request : Header → Header
unfolding get_header filter_accept_encoding
filtered_request h =
    let accepted = get_header h (codes "Accept-Encoding") in
    if text_eq accepted []
    then h
    else insert (codes "Accept-Encoding") (filter_accept_encoding accepted ∷ []) h

module _ (g : Gjson) where
  -- The metrics that are recorded where nothing is parsed.
  unfoldable pub minimal : Text → Recorded → TokenMetrics g.Float
  minimal model r = record {
    id = 0;
    timestamp = r.now;
    model = model;
    cached_tokens = pos 0;
    input_tokens = pos 0;
    output_tokens = pos 0;
    prompt_per_second = g.zero_float;
    tokens_per_second = g.zero_float;
    duration_ms = pos r.elapsed;
    has_capture = false;
  }

  -- The timings of the last of some values, or others.
  abbrev pub last_timings : g.Json → List g.Json → g.Json
  last_timings timings [] = timings
  last_timings timings (j ∷ []) = g.get j (codes "timings")
  last_timings timings (j ∷ (k ∷ js)) = last_timings timings (k ∷ js)

  unfoldable pub json_metrics : Exchange → Recorded → Text → TokenMetrics g.Float
  unfolding minimal parse_metrics has_prefix
  json_metrics x r content =
      let parsed = g.parse content in
      let usage = g.get parsed (codes "usage") in
      let own = g.get parsed (codes "timings") in
      let timings =
        if has_prefix x.path (codes "/infill") then last_timings own (g.items parsed) else own in
      if g.valid content
      then (if g.exists usage || g.exists timings
          then parse_metrics g x.model r.now r.elapsed usage timings
          else minimal x.model r)
      else minimal x.model r

  abbrev pub or_minimal : Exchange → Recorded → Option (TokenMetrics g.Float) → TokenMetrics g.Float
  or_minimal x r none = minimal x.model r
  or_minimal x r (some t) = t

  unfoldable pub response_metrics : Exchange → Recorded → Text → TokenMetrics g.Float
  unfolding json_metrics process_streaming_response contains_text get_header
  response_metrics x r content =
      if contains_text (get_header r.headers (codes "Content-Type")) (codes "text/event-stream")
      then or_minimal x r (process_streaming_response g x.model r.now r.elapsed content)
      else json_metrics x r content

  -- The capture, with the id that it is given later.
  unfoldable pub new_capture : Exchange → Recorded → Text → ℕ → Capture
  unfolding first_values redact_headers
  new_capture x r content id = record {
    id = id;
    req_path = x.path;
    req_headers = redact_headers (first_values x.headers);
    req_body = body_or_empty x.body_read;
    resp_headers = delete (codes "Content-Encoding") (redact_headers (first_values r.headers));
    resp_body = content;
  }

  abbrev pub Metrics : Type 0
  Metrics = Monitor (TokenMetrics g.Float)

  -- `HasCapture`: captures are enabled and this one is not too large.
  unfoldable pub will_store : Metrics → Exchange → Recorded → Text → Bool
  unfolding new_capture
  will_store m x r content =
      m.enable_captures && leb (size (new_capture x r content 0)) m.max_capture_size

  abbrev pub numbered_metric : Exchange → Recorded → Text → Bool → ℕ → TokenMetrics g.Float
  numbered_metric x r content stored id = record (response_metrics x r content) {
    id = id;
    has_capture = stored;
  }

  -- The capture takes the id of the metric.
  abbrev pub with_capture : Bool → Exchange → Recorded → Text → Metrics × ℕ → Metrics
  with_capture true x r content (n, id) = add_capture n (new_capture x r content id)
  with_capture false x r content (n, id) = n

  -- The metric and the capture of a response whose body was decompressed.
  unfoldable pub record_response : Metrics → Exchange → Recorded → Text → Metrics
  unfolding new_capture response_metrics will_store
  record_response m x r content =
      with_capture m.enable_captures x r content
        (add_metrics m (numbered_metric x r content (will_store m x r content)))

  abbrev pub record_minimal : Metrics → Exchange → Recorded → Metrics
  record_minimal m x r = (add_metrics m (λ id. record (minimal x.model r) { id = id })).0

  abbrev pub record_decompressed : Metrics → Exchange → Recorded → Option Text → Metrics
  record_decompressed m x r none = record_minimal m x r
  record_decompressed m x r (some content) = record_response m x r content

  unfoldable pub after_next : Metrics → Exchange → Recorded → Metrics
  unfolding record_response decompress_body
  after_next m x r =
      let encoding = get_header r.headers (codes "Content-Encoding") in
      if not (r.status == 200)
      then m
      else if text_eq r.sent []
      then record_minimal m x r
      else record_decompressed m x r
          (if text_eq encoding [] then some r.sent else decompress_body x r.sent encoding)

  abbrev pub on_next : Metrics → Exchange → Option Recorded → Option WrapError × Metrics
  on_next m x none = (some next_failed, m)
  on_next m x (some r) = (none, after_next m x r)

  -- `wrapHandler`: its error and the monitor.
  abbrev pub read_and_next : Metrics → Exchange → Bool → BodyRead → Option WrapError × Metrics
  read_and_next m x true read_fails = (some request_body_failed, m)
  read_and_next m x _ _ = on_next m x (x.next (filtered_request x.headers))

  unfoldable pub wrap_handler : Metrics → Exchange → Option WrapError × Metrics
  unfolding after_next filtered_request
  wrap_handler m x = read_and_next m x m.enable_captures x.body_read
