-- ===== src/Tests/Metrics.antt =====
-- proxy/metrics_monitor.go on concrete inputs.
use llama_swap.Base.{ℕ, ◌+◌, ◌*◌, ◌≡◌, ◌≤◌, refl, List, [], ◌∷◌, none, some, true, length, last_n}
use mathlib.Core.List.{reverse}
use llama_swap.Base.Text.{Text, codes, text_eq, split, has_prefix, trim_space, trim_left}
use llama_swap.Base.Bytes.{last_index_byte}
use llama_swap.Base.Integer.{pos}
use llama_swap.Metrics.Captures.{
  Capture, size, headers_size, find_capture, new_metrics_monitor, get_capture_by_id, get_metrics,
}
use llama_swap.Metrics.Eviction.{total, fitting}
use llama_swap.Metrics.History.{accepted}
use llama_swap.Metrics.Sequences.{
  Call, metric, capture, call_all, numbered, captures_of, NewIds, call_all-metrics_captures,
}
use llama_swap.Metrics.Parse.{Gjson, metrics_found, process_streaming_response, scan_back, usable}
use llama_swap.Metrics.Backwards.{first_usable, process_streaming_response_lem}
use llama_swap.Metrics.Handler.{Exchange, Recorded, body, Metrics, wrap_handler}
use llama_swap.Metrics.Exchanges.{WrapEnd, wrap_handler-WrapEnd}

-- A decoder that knows a number for each text.
abbrev pub gjson : Gjson
gjson = record {
  Json = ℕ;
  Float = ℕ;
  valid = λ s. true;
  parse = λ s. length s;
  get = λ j key. j + length key;
  exists = λ j. true;
  items = λ j. [];
  int = λ j. pos j;
  float = λ j. j;
  zero_float = 0;
  minus_one = 0;
  add = λ a b. a + b;
  truncate = λ a. pos a;
}

abbrev stream : Text
stream = codes "data: {}\n\ndata: [DONE]\n"

-- The last line but one has data.
stream_found : scan_back gjson 24 stream 23 ≡ some (7, 9)
unfolding scan_back usable last_index_byte text_eq has_prefix trim_space trim_left
stream_found = refl

process_streaming_response_lem_example :
    process_streaming_response gjson (codes "m") 5 3 stream
    ≡ metrics_found gjson (codes "m") 5 3 (first_usable gjson (reverse (split 10 stream)))
process_streaming_response_lem_example = process_streaming_response_lem gjson (codes "m") 5 3 stream

abbrev small : ℕ → Capture
small id = record {
  id = id;
  req_path = codes "/v1";
  req_headers = [];
  req_body = codes "q";
  resp_headers = [];
  resp_body = codes "a";
}

abbrev calls : List (Call ℕ)
calls = metric (λ id. id) ∷ capture (small 0) ∷ metric (λ id. id) ∷ capture (small 1) ∷ []

new_ids : NewIds (1 * 1024 * 1024) [] calls
unfolding size headers_size
new_ids = (tt, ((refl, tt), tt))

call_all-metrics_captures_example :
    let m = call_all (new_metrics_monitor 1 1) calls in
    let limit = 1 * 1024 * 1024 in
    let kept = fitting limit 0 (accepted limit [] (captures_of calls)) in
    (get_metrics m ≡ last_n 1 (numbered 0 calls))
    × (get_capture_by_id m 1 ≡ find_capture 1 kept)
    × (m.capture_size ≡ total kept)
    × (m.capture_size ≤ limit)
call_all-metrics_captures_example = call_all-metrics_captures 1 1 calls 1 refl new_ids

abbrev pub recorded : Recorded
recorded = record {
  status = 200;
  sent = codes "{}";
  headers = (codes "Set-Cookie", codes "s=1" ∷ []) ∷ [];
  now = 10;
  elapsed = 4;
}

abbrev exchange : Exchange
exchange = record {
  model = codes "m";
  path = codes "/v1/completions";
  headers = (codes "Authorization", codes "Bearer k" ∷ []) ∷ [];
  body_read = body (codes "{}");
  next = λ h. some recorded;
  gunzip = λ s. none;
  inflate = λ s. none;
}

abbrev pub monitor : Metrics gjson
monitor = new_metrics_monitor 10 1

wrap_handler-WrapEnd_example :
    WrapEnd gjson monitor exchange
      (wrap_handler gjson monitor exchange).0
      (wrap_handler gjson monitor exchange).1
wrap_handler-WrapEnd_example = wrap_handler-WrapEnd gjson monitor exchange

abbrev redacted_capture : Capture
redacted_capture = record {
  id = 0;
  req_path = codes "/v1/completions";
  req_headers = (codes "Authorization", codes "[REDACTED]") ∷ [];
  req_body = codes "{}";
  resp_headers = (codes "Set-Cookie", codes "[REDACTED]") ∷ [];
  resp_body = codes "{}";
}
