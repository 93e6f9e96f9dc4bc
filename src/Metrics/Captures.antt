-- ===== src/Metrics/Captures.antt =====
-- proxy/metrics_monitor.go: `metricsMonitor`, its metrics and its buffer of captures.
use llama_swap.Base.{
  ℕ, ◌+◌, ◌-◌, ◌*◌, List, [], ◌∷◌, ◌++◌, Option, none, some, Bool, if◌then◌else◌, ltb, ◌==◌, length,
  drop,
}
use llama_swap.Base.Text.{Text}
use llama_swap.Base.Dict.{Dict}

-- `ReqRespCapture`.
pub record Capture : Type 0 where
  pub id : ℕ
  pub req_path : Text
  pub req_headers : Dict Text
  pub req_body : Text
  pub resp_headers : Dict Text
  pub resp_body : Text

unfoldable pub headers_size : Dict Text → ℕ
headers_size [] = 0
headers_size ((k, v) ∷ headers) = length k + length v + headers_size headers

unfoldable pub size : Capture → ℕ
size c =
    length c.req_path
    + length c.req_body
    + length c.resp_body
    + headers_size c.req_headers
    + headers_size c.resp_headers

-- `map[int]ReqRespCapture`, in the order of the insertions.
abbrev pub CaptureMap : Type 0
CaptureMap = List (ℕ × Capture)

unfoldable pub find_capture : ℕ → CaptureMap → Option Capture
find_capture id [] = none
find_capture id ((i, c) ∷ captures) = if i == id then some c else find_capture id captures

unfoldable pub delete_capture : ℕ → CaptureMap → CaptureMap
delete_capture id [] = []
delete_capture id ((i, c) ∷ captures) =
    let rest = delete_capture id captures in if i == id then rest else (i, c) ∷ rest

unfoldable pub put_capture : ℕ → Capture → CaptureMap → CaptureMap
put_capture id c [] = (id, c) ∷ []
put_capture id c ((i, d) ∷ captures) =
    if i == id then (id, c) ∷ captures else (i, d) ∷ put_capture id c captures

-- `metricsMonitor`; `M` is the type of its metrics, `emitted` what it told the dispatcher, the
-- latest first. The logger is left out.
pub record Monitor {ℓ} (M : Type ℓ) : Type ℓ where
  pub metrics : List M
  pub max_metrics : ℕ
  pub next_id : ℕ
  pub enable_captures : Bool
  pub captures : CaptureMap
  pub capture_order : List ℕ
  pub capture_size : ℕ
  pub max_capture_size : ℕ
  pub emitted : List M

unfoldable pub new_metrics_monitor {ℓ} : {M : Type ℓ} → ℕ → ℕ → Monitor M
new_metrics_monitor max_metrics megabytes = record {
  metrics = [];
  max_metrics = max_metrics;
  next_id = 0;
  enable_captures = ltb 0 megabytes;
  captures = [];
  capture_order = [];
  capture_size = 0;
  max_capture_size = megabytes * 1024 * 1024;
  emitted = [];
}

-- `addMetrics`, for a metric that takes its id from the monitor: the monitor and the id.
abbrev pub bounded {ℓ} : {M : Type ℓ} → ℕ → List M → List M
bounded max ms = if ltb max (length ms) then drop (length ms - max) ms else ms

unfoldable pub add_metrics {ℓ} : {M : Type ℓ} → Monitor M → (ℕ → M) → Monitor M × ℕ
add_metrics m metric = (
  record m {
    next_id = m.next_id + 1;
    metrics = bounded m.max_metrics (m.metrics ++ (metric m.next_id ∷ []));
    emitted = metric m.next_id ∷ m.emitted;
  },
  m.next_id,
)

-- The eviction loop over `captureOrder`: the captures, the order and the size that are left.
pub record Buffer : Type 0 where
  pub captures : CaptureMap
  pub order : List ℕ
  pub size : ℕ

abbrev pub evicted : ℕ → Option Capture → CaptureMap → ℕ → CaptureMap × ℕ
evicted id none captures total = (captures, total)
evicted id (some c) captures total = (delete_capture id captures, total - size c)

unfoldable pub evict : ℕ → ℕ → CaptureMap → List ℕ → ℕ → Buffer
unfolding find_capture delete_capture size
evict max needed captures [] total = record { captures = captures; order = []; size = total }
evict max needed captures (id ∷ order) total =
    let after = evicted id (find_capture id captures) captures total in
    let rest = evict max needed after.0 order after.1 in
    if ltb max (total + needed)
    then rest
    else record { captures = captures; order = id ∷ order; size = total }

-- `addCapture`, after the test that captures are enabled.
unfoldable pub keep_capture {ℓ} : {M : Type ℓ} → Monitor M → Capture → Monitor M
unfolding evict put_capture size
keep_capture m c =
    if ltb m.max_capture_size (size c)
    then m
    else (let b = evict m.max_capture_size (size c) m.captures m.capture_order m.capture_size in
        record m {
          captures = put_capture c.id c b.captures;
          capture_order = b.order ++ (c.id ∷ []);
          capture_size = b.size + size c;
        })

unfoldable pub add_capture {ℓ} : {M : Type ℓ} → Monitor M → Capture → Monitor M
unfolding keep_capture
add_capture m c = if m.enable_captures then keep_capture m c else m

unfoldable pub get_capture_by_id {ℓ} : {M : Type ℓ} → Monitor M → ℕ → Option Capture
unfolding find_capture
get_capture_by_id m id = find_capture id m.captures

unfoldable pub get_metrics {ℓ} : {M : Type ℓ} → Monitor M → List M
get_metrics m = m.metrics
