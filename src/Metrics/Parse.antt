-- ===== src/Metrics/Parse.antt =====
-- proxy/metrics_monitor.go: `parseMetrics` and `processStreamingResponse`.
use llama_swap.Base.{
  ℕ, zero, suc, ◌-◌, List, [], Option, none, some, Bool, false, if◌then◌else◌, ◌||◌, ◌==◌, length,
  take, drop, slice,
}
use llama_swap.Base.Text.{Text, codes, text_eq, has_prefix, trim_space}
use llama_swap.Base.Bytes.{last_index_byte}
use llama_swap.Base.Integer.{ℤ, pos, negsuc}

-- The library gjson, and Go's `float64`.
pub record Gjson : Type 1 where
  pub Json : Type 0
  pub Float : Type 0
  pub valid : Text → Bool
  pub parse : Text → Json
  pub get : Json → Text → Json
  pub exists : Json → Bool
  pub items : Json → List Json
  pub int : Json → ℤ
  pub float : Json → Float
  pub zero_float : Float
  pub minus_one : Float
  pub add : Float → Float → Float
  pub truncate : Float → ℤ

-- `TokenMetrics`.
pub record TokenMetrics (F : Type 0) : Type 0 where
  pub id : ℕ
  pub timestamp : ℕ
  pub model : Text
  pub cached_tokens : ℤ
  pub input_tokens : ℤ
  pub output_tokens : ℤ
  pub prompt_per_second : F
  pub tokens_per_second : F
  pub duration_ms : ℤ
  pub has_capture : Bool

abbrev pub line_start : Option ℕ → ℕ
line_start none = 0
line_start (some i) = suc i

module _ (g : Gjson) where
  open g use {Json, Float, valid, parse, get, exists, items, int, float, minus_one, add, truncate}

  -- The first of two fields that exists, or a default.
  unfoldable pub first_field : Json → Text → Text → ℤ → ℤ
  first_field usage a b default =
      if exists (get usage a)
      then int (get usage a)
      else if exists (get usage b)
      then int (get usage b)
      else default

  unfoldable pub field_or : Json → Text → ℤ → ℤ
  field_or json name default = if exists (get json name) then int (get json name) else default

  -- The metrics from `usage`.
  unfoldable pub usage_metrics : Text → ℕ → ℕ → Json → TokenMetrics Float
  unfolding first_field field_or
  usage_metrics model now elapsed usage =
      let known = exists usage in
      record {
        id = 0;
        timestamp = now;
        model = model;
        cached_tokens =
            if known then field_or usage (codes "cache_read_input_tokens") (negsuc 0) else negsuc 0;
        input_tokens =
            if known
            then first_field usage (codes "prompt_tokens") (codes "input_tokens") (pos 0)
            else pos 0;
        output_tokens =
            if known
            then first_field usage (codes "completion_tokens") (codes "output_tokens") (pos 0)
            else pos 0;
        prompt_per_second = minus_one;
        tokens_per_second = minus_one;
        duration_ms = pos elapsed;
        has_capture = false;
      }

  -- `parseMetrics`, which never fails: what `timings` has goes before `usage`.
  unfoldable pub parse_metrics : Text → ℕ → ℕ → Json → Json → TokenMetrics Float
  unfolding usage_metrics
  parse_metrics model now elapsed usage timings =
      let m = usage_metrics model now elapsed usage in
      if exists timings
      then record m {
        input_tokens = int (get timings (codes "prompt_n"));
        output_tokens = int (get timings (codes "predicted_n"));
        prompt_per_second = float (get timings (codes "prompt_per_second"));
        tokens_per_second = float (get timings (codes "predicted_per_second"));
        duration_ms = truncate (
            add (float (get timings (codes "prompt_ms")))
              (float (get timings (codes "predicted_ms"))));
        cached_tokens = field_or timings (codes "cache_n") m.cached_tokens;
      }
      else m

  -- `usage` and `timings` of a line of the stream, if it has one of them.
  abbrev pub usage_of : Json → Option (Json × Json)
  usage_of parsed =
      let usage = get parsed (codes "usage") in
      let timings = get parsed (codes "timings") in
      if exists usage || exists timings then some (usage, timings) else none

  unfoldable pub usable : Text → Option (Json × Json)
  unfolding text_eq has_prefix trim_space
  usable line =
      let payload = trim_space (drop 5 line) in
      if text_eq line []
      then none
      else if has_prefix line (codes "data:")
      then (if text_eq payload []
          then none
          else if text_eq payload (codes "[DONE]")
          then none
          else if valid payload
          then usage_of (parse payload)
          else none)
      else none

  abbrev pub or_found : Option (Json × Json) → Option (Json × Json) → Option (Json × Json)
  or_found none rest = rest
  or_found (some x) rest = some x

  -- The loop from the end of the body to its begin. The fuel covers its rounds, each of which
  -- moves `upto`, the source's `pos`, down; -1 is 0, at which the loop ends too.
  unfoldable pub scan_back : ℕ → Text → ℕ → Option (Json × Json)
  unfolding usable last_index_byte
  scan_back zero body upto = none
  scan_back (suc fuel) body upto =
      let start = line_start (last_index_byte 10 (take upto body)) in
      let rest = scan_back fuel body (start - 1) in
      if upto == 0 then none else or_found (usable (trim_space (slice body start upto))) rest

  -- `processStreamingResponse`; `none` is its error.
  abbrev pub metrics_found : Text → ℕ → ℕ → Option (Json × Json) → Option (TokenMetrics Float)
  metrics_found model now elapsed none = none
  metrics_found model now elapsed (some (usage, timings)) =
      some (parse_metrics model now elapsed usage timings)

  unfoldable pub process_streaming_response : Text → ℕ → ℕ → Text → Option (TokenMetrics Float)
  unfolding scan_back parse_metrics
  process_streaming_response model now elapsed body =
      metrics_found model now elapsed (scan_back (suc (length body)) body (length body))
