-- ===== src/Manager/Answers.antt =====
-- proxy/proxymanager.go: how `proxyInferenceHandler` ends.
use llama_swap.Base.{
  ℕ, ◌≡◌, ◌≢◌, ◌≤◌, ◌<◌, refl, suc, inl, inr, [], ◌∷◌, Option, none, some, ltb, ltb→lt, length,
  take, length-take, take_all, if◌then◌else◌, arith, Bool-cases,
}
use llama_swap.Base.Text.{Text, codes, text_eq, text_eq_iff}
use llama_swap.Base.Dict.{Dict, lookup, delete, lookup-insert, lookup-delete}
use llama_swap.Metrics.Parse.{Gjson}
use llama_swap.Metrics.Headers.{Header, get_header}
use llama_swap.Metrics.Handler.{WrapError, Metrics, wrap_handler}
use llama_swap.Metrics.Exchanges.{WrapEnd, wrap_handler-WrapEnd}
use llama_swap.Group.State.{ProcessGroup}
use llama_swap.Manager.Routes.{
  Manager, Target, Resolved, no_process_group, never_returns, no_target, resolved,
  resolve_model_target,
}
use llama_swap.Manager.Bodies.{BodyJson, rewrite_body}
use llama_swap.Manager.Inference.{
  max_inference_body_bytes, Request, Forwarded, Outside, Answer, blocks, answer, model_of,
  content_length, dechunked, if_failed, unless_served, State, forwarded, exchange_of, call_next,
  if_rewritten, if_resolved, if_read, limited, proxy_inference_handler,
}

-- The headers give the body's length, and do not say that it is chunked.
pub record IsMeasured (h : Header) (sent : Text) : Type 0 where
  pub measured : get_header h (codes "Content-Length") ≡ content_length sent
  pub not_chunked : lookup (codes "Transfer-Encoding") h ≡ none

dechunked-IsMeasured : (h : Header) (sent : Text) → IsMeasured (dechunked h sent) sent
unfolding dechunked get_header text_eq
dechunked-IsMeasured h sent =
    let transfer = codes "Transfer-Encoding" in
    let size = codes "Content-Length" in
    let rest = delete transfer h in
    record {
      measured = rw (lookup-insert size size (content_length sent ∷ []) rest) refl;
      not_chunked =
          rw (lookup-insert size transfer (content_length sent ∷ []) rest)
            (rw (lookup-delete transfer transfer h) refl);
    }

ltb-take : (n : ℕ) (s : Text) → ltb n (length (take (suc n) s)) ≡ ltb n (length s)
ltb-take n s = ground (arith, length-take (suc n) s)

module _ (g : Gjson) (j : BodyJson) (pm : Manager) (o : Outside) (r : Request) where
  abbrev pub requested_of : Text → Text
  requested_of content = j.string (j.get content (codes "model"))

  abbrev pub resolved_of : Text → Resolved
  resolved_of content = resolve_model_target pm o.swap_env (requested_of content)

  -- A body that is read whole and names a model.
  pub record IsAccepted (content : Text) : Type 0 where
    pub read : r.content ≡ some content
    pub fits : length content ≤ max_inference_body_bytes
    pub named : requested_of content ≢ []

  -- The statuses of the requests that are not sent on, each with its reason.
  pub data IsRefused : ℕ → Dict ProcessGroup → Type 0 where
    unreadable : r.content ≡ none → IsRefused 400 pm.groups
    too_large :
        (content : Text)
        → r.content ≡ some content
        → max_inference_body_bytes < length content
        → IsRefused 413 pm.groups
    unnamed :
        (content : Text)
        → r.content ≡ some content
        → requested_of content ≡ []
        → IsRefused 400 pm.groups
    unknown :
        (content : Text)
        → IsAccepted content
        → resolved_of content ≡ no_target
        → IsRefused 400 pm.groups
    without_group :
        (content : Text)
        → IsAccepted content
        → resolved_of content ≡ no_process_group
        → IsRefused 500 pm.groups
    not_rewritten :
        (content : Text) (target : Target) (groups : Dict ProcessGroup)
        → IsAccepted content
        → resolved_of content ≡ resolved target groups
        → rewrite_body j pm target content ≡ none
        → IsRefused 500 groups

  -- The call of the target's handler, by the monitor for a POST where there is one.
  abbrev pub Directly : Target → Forwarded → State g j → Option ℕ → State g j → Type 0
  Directly target f m status n = (status ≡ unless_served (o.next target f)) × (n ≡ m)

  abbrev pub Wrapped : Target → Forwarded → Metrics g → Option ℕ → State g j → Type 0
  Wrapped target f m status n =
      (e : Option WrapError) × (after : Metrics g) × (status ≡ if_failed e)
      × (n ≡ some after)
      × WrapEnd g m (exchange_of g j o target f) e after

  abbrev pub IsCalled : Target → Forwarded → State g j → Option ℕ → State g j → Type 0
  IsCalled target f none status n = Directly target f none status n
  IsCalled target f (some m) status n =
      if text_eq r.method (codes "POST")
      then Wrapped target f m status n
      else Directly target f (some m) status n

  -- What was sent, by the target that the requested model resolves to.
  pub record IsSent (f : Forwarded) (groups : Dict ProcessGroup) (target : Target) (content : Text)
      : Type 0 where
    pub accepted : IsAccepted content
    pub resolves : resolved_of content ≡ resolved target groups
    pub rewritten : rewrite_body j pm target content ≡ some f.body
    pub to_model : f.model ≡ model_of target
    pub headers_measured : IsMeasured f.headers f.body
    pub streams : f.streaming ≡ j.bool (j.get f.body (codes "stream"))

  abbrev pub InferenceEnd : State g j → Answer (State g j) → Type 0
  InferenceEnd m blocks =
      (content : Text) × IsAccepted content × (resolved_of content ≡ never_returns)
  InferenceEnd m (answer status none groups n) =
      (code : ℕ) × (status ≡ some code) × IsRefused code groups × (n ≡ m)
  InferenceEnd m (answer status (some f) groups n) =
      (target : Target) × (content : Text) × IsSent f groups target content
      × IsCalled target f m status n

  call_next_lem :
      (target : Target) (content sent : Text) (groups : Dict ProcessGroup) (m : State g j)
      → IsSent (forwarded g j r target sent) groups target content
      → InferenceEnd m (call_next g j o r.method target (forwarded g j r target sent) groups m)
  unfolding call_next
  call_next_lem target content sent groups none s = (target, content, s, (refl, refl))
  call_next_lem target content sent groups (some m) s =
      let f = forwarded g j r target sent in
      let x = exchange_of g j o target f in
      elim (Bool-cases (text_eq r.method (codes "POST"))) [
        | inl post ↦
            let (e, after) = wrap_handler g m x in
            rw post (target, content, s, rw post (e, after, refl, refl, wrap_handler-WrapEnd g m x))
        | inr other ↦ rw other (target, content, s, rw other (refl, refl))
      ]

  rewritten_lem :
      (target : Target) (content : Text) (groups : Dict ProcessGroup) (m : State g j)
      (b : Option Text)
      → IsAccepted content
      → resolved_of content ≡ resolved target groups
      → rewrite_body j pm target content ≡ b
      → InferenceEnd m (if_rewritten g j o r target groups m b)
  unfolding forwarded
  rewritten_lem target content groups m none a s e =
      (500, refl, not_rewritten content target groups a s e, refl)
  rewritten_lem target content groups m (some sent) a s e =
      call_next_lem target content sent groups m (record {
        accepted = a;
        resolves = s;
        rewritten = e;
        to_model = refl;
        headers_measured = dechunked-IsMeasured r.headers sent;
        streams = refl;
      })

  resolved_lem :
      (content : Text) (m : State g j) (x : Resolved)
      → IsAccepted content
      → resolved_of content ≡ x
      → InferenceEnd m (if_resolved g j pm o r m content x)
  resolved_lem content m no_process_group a e = (500, refl, without_group content a e, refl)
  resolved_lem content m never_returns a e = (content, a, e)
  resolved_lem content m no_target a e = (400, refl, unknown content a e, refl)
  resolved_lem content m (resolved target groups) a e =
      rewritten_lem target content groups m (rewrite_body j pm target content) a e refl

  fits_lem :
      (content : Text) (m : State g j)
      → r.content ≡ some content
      → length content ≤ max_inference_body_bytes
      → InferenceEnd m (
          if text_eq (requested_of content) []
          then answer (some 400) none pm.groups m
          else if_resolved g j pm o r m content (resolved_of content))
  fits_lem content m e fits = elim (Bool-cases (text_eq (requested_of content) [])) [
    | inl empty ↦
        rw empty
          (400, refl, unnamed content e ((text_eq_iff (requested_of content) []).0 empty), refl)
    | inr given ↦ rw given (
        resolved_lem content m (resolved_of content)
          (record {
            read = e;
            fits = fits;
            named = λ h. absurd (ground (arith, text_eq_iff (requested_of content) []));
          })
          refl)
  ]

  read_lem :
      (content : Text) (m : State g j)
      → r.content ≡ some content
      → InferenceEnd m (if_read g j pm o r m (some (take (suc max_inference_body_bytes) content)))
  read_lem content m e = elim (Bool-cases (ltb max_inference_body_bytes (length content))) [
    | inl large ↦
        rw (ltb-take max_inference_body_bytes content, large)
          (
            413,
            refl,
            too_large content e (ltb→lt max_inference_body_bytes (length content) large),
            refl,
          )
    | inr fits ↦
        rw
          (
            ltb-take max_inference_body_bytes content,
            fits,
            take_all (suc max_inference_body_bytes) content (ground arith),
          )
          (fits_lem content m e (ground arith))
  ]

  -- How the handler ends: it waits only if the swap does; it answers an error, with everything as it
  -- was but for the groups of a swap, for one of the reasons of `IsRefused`; or it sends the rewritten
  -- body to the target of the model, with its length, and answers 500 exactly if that fails.
  pub proxy_inference_handler-InferenceEnd :
      (m : State g j) → InferenceEnd m (proxy_inference_handler g j pm o r m)
  unfolding proxy_inference_handler
  proxy_inference_handler-InferenceEnd m = go r.content refl
    where
      go :
          (content : Option Text)
          → r.content ≡ content
          → InferenceEnd m (if_read g j pm o r m (limited g j content))
      go none e = (400, refl, unreadable e, refl)
      go (some content) e = read_lem content m e
