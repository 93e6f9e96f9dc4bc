-- ===== src/Manager/Inference.antt =====
-- proxy/proxymanager.go: `proxyInferenceHandler`.
use llama_swap.Base.{
  ℕ, ◌*◌, suc, [], ◌∷◌, Option, none, some, Bool, if◌then◌else◌, ltb, length, take,
}
use llama_swap.Base.Text.{Text, codes, text_eq}
use llama_swap.Base.Dict.{Dict, insert, delete}
use llama_swap.Base.Integer.{pos, itoa}
use llama_swap.Metrics.Parse.{Gjson}
use llama_swap.Metrics.Headers.{Header}
use llama_swap.Metrics.Handler.{body, Recorded, Exchange, WrapError, Metrics, wrap_handler}
use llama_swap.Group.State.{ProcessGroup, StopEnv}
use llama_swap.Manager.Routes.{
  Manager, Target, local_process, peer, Resolved, no_process_group, never_returns, no_target,
  resolved, resolve_model_target,
}
use llama_swap.Manager.Bodies.{BodyJson, rewrite_body}

abbrev pub max_inference_body_bytes : ℕ
max_inference_body_bytes = 32 * 1024 * 1024

-- The request; its content is none if reading it fails within the limit.
pub record Request : Type 0 where
  pub method : Text
  pub path : Text
  pub headers : Header
  pub content : Option Text

-- The request that the handler of the target is given.
pub record Forwarded : Type 0 where
  pub model : Text
  pub path : Text
  pub headers : Header
  pub body : Text
  pub streaming : Bool

-- What runs outside of the handler: the environment of a swap, the handler of a target (none is its
-- error), and the packages gzip and flate.
pub record Outside : Type 0 where
  pub swap_env : Text → Text → StopEnv
  pub next : Target → Forwarded → Option Recorded
  pub gunzip : Text → Option Text
  pub inflate : Text → Option Text

-- How the handler ends: the status of its own answer, if it gives one, what was sent, the groups and
-- the monitor. A swap that waits for ever blocks it.
pub data Answer (M : Type 0) : Type 0 where
  blocks : Answer M
  answer : Option ℕ → Option Forwarded → Dict ProcessGroup → M → Answer M

abbrev pub model_of : Target → Text
model_of (local_process model use_name group) = model
model_of (peer model) = model

abbrev pub content_length : Text → Text
content_length sent = itoa (pos (length sent))

-- The headers of a request whose body is no longer chunked.
unfoldable pub dechunked : Header → Text → Header
unfolding itoa
dechunked h sent =
    insert (codes "Content-Length") (content_length sent ∷ [])
      (delete (codes "Transfer-Encoding") h)

abbrev pub if_failed {ℓ} : {A : Type ℓ} → Option A → Option ℕ
if_failed none = none
if_failed (some e) = some 500

abbrev pub unless_served : Option Recorded → Option ℕ
unless_served none = some 500
unless_served (some r) = none

module _ (g : Gjson) (j : BodyJson) where
  abbrev pub State : Type 0
  State = Option (Metrics g)

  unfoldable pub forwarded : Request → Target → Text → Forwarded
  unfolding dechunked
  forwarded r target sent = record {
    model = model_of target;
    path = r.path;
    headers = dechunked r.headers sent;
    body = sent;
    streaming = j.bool (j.get sent (codes "stream"));
  }

  -- The call by the metrics monitor.
  abbrev pub exchange_of : Outside → Target → Forwarded → Exchange
  exchange_of o target f = record {
    model = f.model;
    path = f.path;
    headers = f.headers;
    body_read = body f.body;
    next = λ h. o.next target (record f { headers = h });
    gunzip = o.gunzip;
    inflate = o.inflate;
  }

  abbrev pub wrapped : Forwarded → Dict ProcessGroup → Option WrapError × Metrics g → Answer State
  wrapped f groups (e, m) = answer (if_failed e) (some f) groups (some m)

  unfoldable pub call_next :
      Outside → Text → Target → Forwarded → Dict ProcessGroup → State → Answer State
  unfolding wrap_handler
  call_next o method target f groups none =
      answer (unless_served (o.next target f)) (some f) groups none
  call_next o method target f groups (some m) =
      if text_eq method (codes "POST")
      then wrapped f groups (wrap_handler g m (exchange_of o target f))
      else answer (unless_served (o.next target f)) (some f) groups (some m)

  abbrev pub if_rewritten :
      Outside → Request → Target → Dict ProcessGroup → State → Option Text → Answer State
  if_rewritten o r target groups m none = answer (some 500) none groups m
  if_rewritten o r target groups m (some sent) =
      call_next o r.method target (forwarded r target sent) groups m

  abbrev pub if_resolved : Manager → Outside → Request → State → Text → Resolved → Answer State
  if_resolved pm o r m content no_process_group = answer (some 500) none pm.groups m
  if_resolved pm o r m content never_returns = blocks
  if_resolved pm o r m content no_target = answer (some 400) none pm.groups m
  if_resolved pm o r m content (resolved target groups) =
      if_rewritten o r target groups m (rewrite_body j pm target content)

  abbrev pub if_read : Manager → Outside → Request → State → Option Text → Answer State
  if_read pm o r m none = answer (some 400) none pm.groups m
  if_read pm o r m (some content) =
      let requested = j.string (j.get content (codes "model")) in
      if ltb max_inference_body_bytes (length content)
      then answer (some 413) none pm.groups m
      else if text_eq requested []
      then answer (some 400) none pm.groups m
      else if_resolved pm o r m content (resolve_model_target pm o.swap_env requested)

  -- `io.LimitReader` and `io.ReadAll`.
  abbrev pub limited : Option Text → Option Text
  limited none = none
  limited (some content) = some (take (suc max_inference_body_bytes) content)

  unfoldable pub proxy_inference_handler : Manager → Outside → Request → State → Answer State
  unfolding forwarded call_next resolve_model_target rewrite_body
  proxy_inference_handler pm o r m = if_read pm o r m (limited r.content)
