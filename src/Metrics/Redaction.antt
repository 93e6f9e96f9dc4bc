-- ===== src/Metrics/Redaction.antt =====
-- proxy/metrics_monitor.go: no capture holds the value of a sensitive header.
use llama_swap.Base.{◌≡◌, List, [], ◌∷◌, true}
use llama_swap.Base.Text.{Text}
use llama_swap.Base.Dict.{Dict}
use llama_swap.Metrics.Captures.{Capture, CaptureMap}
use llama_swap.Metrics.Parse.{Gjson}
use llama_swap.Metrics.Headers.{is_sensitive, redacted}
use llama_swap.Metrics.Handler.{Exchange, Metrics, wrap_handler}

-- Every sensitive header has been replaced.
abbrev pub AllRedacted : Dict Text → Type 0
AllRedacted [] = Unit
AllRedacted ((key, v) ∷ h) = (is_sensitive key ≡ true → v ≡ redacted) × AllRedacted h

abbrev pub IsRedacted : Capture → Type 0
IsRedacted c = AllRedacted c.req_headers × AllRedacted c.resp_headers

abbrev AllCaptures : CaptureMap → Type 0
AllCaptures [] = Unit
AllCaptures ((i, c) ∷ captures) = IsRedacted c × AllCaptures captures

module _ (g : Gjson) where
  abbrev Stored : Metrics g → Type 0
  Stored m = AllCaptures m.captures

  -- The exchanges that a monitor handles one after the other.
  abbrev pub wrap_all : Metrics g → List Exchange → Metrics g
  wrap_all m [] = m
  wrap_all m (x ∷ xs) = wrap_all (wrap_handler g m x).1 xs
