-- ===== src/Benchy/Started.antt =====
-- proxy/benchy.go: the answer of `apiStartBenchy` and the job that it leaves.
use llama_swap.Base.{
  ℕ, ◌+◌, ◌≡◌, refl, subst, ◌∙◌, inl, inr, List, [], ◌∷◌, Option, none, some, Bool, true, false,
  if◌then◌else◌, ◌||◌, not, ltb, if_holds, arith, Bool-cases, Option-cases,
}
use llama_swap.Base.Text.{Text, text_eq, contains, text_eq_refl, trim_space}
use llama_swap.Base.Dict.{lookup, lookup-insert_self}
use llama_swap.Config.Types.{Config}
use llama_swap.Config.Names.{real_model_name}
use llama_swap.Benchy.Jobs.{JobStatus, scheduled, running, RunOptions, Store}
use llama_swap.Benchy.Start.{
  start_in_past, missing_api_key, Checked, accepted, refused, require, StartRequest, StartEnv,
  normalize_benchy_queue_models, queue_or, trimmed_names, resolve_models, normalize_benchy_base_url,
  has_any, parse_benchy_start_at, not_past, first_status,
}
use llama_swap.Benchy.Handler.{
  given_or, check_options, Started, first_name, checked_id, start_checked, put_job,
  api_start_benchy,
}
use llama_swap.Benchy.Plugins.{step_accepted, require-true, accepted_injective}
use llama_swap.Benchy.Accepted.{IsChecked, check_options-IsChecked}

-- Every model has the real name that the configuration gives it.
abbrev pub Resolved : Config → List (Text × Text) → Type 0
Resolved c [] = Unit
Resolved c ((requested, real) ∷ ms) = (real_model_name c requested ≡ some real) × Resolved c ms

resolve_models-Resolved :
    (c : Config) (names : List Text) {ms : List (Text × Text)}
    → resolve_models c names ≡ accepted ms
    → Resolved c ms × (has_any ms ≡ has_any names)
unfolding resolve_models
resolve_models-Resolved c [] h =
    subst (λ (x : List (Text × Text)). Resolved c x × (has_any x ≡ false)) (accepted_injective h)
      (tt, refl)
resolve_models-Resolved c (m ∷ names) h = elim (Option-cases (real_model_name c m)) [
  | inl missing ↦ cc (rw missing at h)
  | inr (real, e) ↦
      let (rest, a, b) =
        step_accepted (resolve_models c names)
          (λ (ms : List (Text × Text)). accepted ((m, real) ∷ ms)) (rw e at h) in
      subst (λ (x : List (Text × Text)). Resolved c x × (has_any x ≡ true)) (accepted_injective b)
        ((e, (resolve_models-Resolved c names a).0), refl)
]

queue_or-filled :
    (primary : Text) (queue : List Text) {names : List Text}
    → queue_or primary queue ≡ accepted names
    → has_any names ≡ true
queue_or-filled primary (m ∷ ms) h =
    subst (λ (x : List Text). has_any x ≡ true) (accepted_injective h) refl
queue_or-filled primary [] h = elim (Bool-cases (text_eq (trim_space primary) [])) [
  | inl empty ↦ cc (rw empty at h)
  | inr filled ↦
      subst (λ (x : List Text). has_any x ≡ true) (accepted_injective (rw filled at h)) refl
]

trust-IsChecked :
    (o : RunOptions) (b : Bool) → IsChecked o → IsChecked (record o { trust_remote_code = b })
trust-IsChecked o b h = record {
  pp_positive = h.pp_positive;
  tg_positive = h.tg_positive;
  depth_not_negative = h.depth_not_negative;
  concurrency_positive = h.concurrency_positive;
  runs_positive = h.runs_positive;
  latency_known = h.latency_known;
  plugins_known = h.plugins_known;
  plugins_distinct = h.plugins_distinct;
  plugins_if_enabled = h.plugins_if_enabled;
  exec_allowed = h.exec_allowed;
  concurrent_positive = h.concurrent_positive;
}

-- The status of a job that waits for a time, and of one that does not.
abbrev pub StatusAt : ℕ → Option ℕ → JobStatus → Type 0
StatusAt now (some t) scheduled = ltb (now + 2000) t ≡ true
StatusAt now none running = Unit
StatusAt now (some t) running = (ltb (now + 2000) t ≡ false) × (ltb (t + 5000) now ≡ false)
StatusAt now _ _ = ⊥

first_status-StatusAt :
    (now : ℕ) (t : Option ℕ) → not_past now t ≡ true → StatusAt now t (first_status now t)
first_status-StatusAt now none h = tt
first_status-StatusAt now (some t) h = elim (Bool-cases (ltb (now + 2000) t)) [
  | inl later ↦ rw later later
  | inr soon ↦ rw soon (soon, ground (arith, h))
]

-- A job that was started.
pub record IsStarted (c : Config) (env : StartEnv) (t : Started) : Type 0 where
  pub options_checked : IsChecked t.job.options
  pub resolved : Resolved c t.models
  pub some_model : has_any t.models ≡ true
  pub first_model : t.job.model ≡ (first_name t.models).0
  pub not_finished : t.job.finished_at ≡ none
  pub status : StatusAt env.now t.job.scheduled_at t.job.status
  pub has_key : has_any c.required_api_keys ≡ true → text_eq t.api_key [] ≡ false

key_lem :
    (required : Bool) (key : Text)
    → (not required || not (text_eq key [])) ≡ true
    → required ≡ true
    → text_eq (if required then key else []) [] ≡ false
key_lem true key h e = ground (arith, h)
key_lem false key h e = cc

start_checked-IsStarted :
    (c : Config) (env : StartEnv) (req : StartRequest) {t : Started}
    → start_checked c env req ≡ accepted t
    → IsStarted c env t
unfolding start_checked normalize_benchy_queue_models
start_checked-IsStarted c env req h =
    let (names, n, h₁) =
      step_accepted (normalize_benchy_queue_models req.model req.queue_models) _ h in
    let (models, r, h₂) = step_accepted (resolve_models c names) _ h₁ in
    let (base, _, h₃) =
      step_accepted
        (normalize_benchy_base_url (given_or (trim_space req.base_url) env.default_base_url)) _
        h₂ in
    let (o, k, h₄) = step_accepted (check_options env req.options) _ h₃ in
    let (at, _, h₅) = step_accepted (parse_benchy_start_at env req.start_at) _ h₄ in
    let (_, p, h₆) = step_accepted (require (not_past env.now at) start_in_past) _ h₅ in
    let (_, a, h₇) =
      step_accepted
        (require (not (has_any c.required_api_keys) || not (text_eq env.api_key []))
          missing_api_key)
        _ h₆ in
    let (id, _, h₈) = step_accepted (checked_id env.job_id) _ h₇ in
    let (all_real, as_many) = resolve_models-Resolved c names r in
    subst (IsStarted c env) (accepted_injective h₈) (record {
      options_checked = trust-IsChecked o _ (check_options-IsChecked env req.options k);
      resolved = all_real;
      some_model = as_many ∙ queue_or-filled req.model (trimmed_names req.queue_models) n;
      first_model = refl;
      not_finished = refl;
      status = first_status-StatusAt env.now at (require-true _ _ p);
      has_key = key_lem (has_any c.required_api_keys) env.api_key (require-true _ _ a);
    })

-- What the store holds after an answer.
abbrev pub StartEnd : Config → StartEnv → Store → Checked Started → Store → Type 0
StartEnd c env s (refused e) after = after ≡ s
StartEnd c env s (accepted t) after =
    IsStarted c env t × (lookup t.id after.jobs ≡ some t.job) × (contains after.cancels t.id ≡ true)

put_job-StartEnd :
    (c : Config) (env : StartEnv) (s : Store) (k : Checked Started)
    → ((t : Started) → k ≡ accepted t → IsStarted c env t)
    → StartEnd c env s (put_job s k).0 (put_job s k).1
unfolding contains
put_job-StartEnd c env s (refused e) h = refl
put_job-StartEnd c env s (accepted t) h =
    (h t refl, lookup-insert_self t.id t.job s.jobs, rw (text_eq_refl t.id) refl)

-- A request that is refused changes nothing. One that is answered with an id has stored a job under
-- it that can be canceled. All its numbers are in range, its plugins are known and distinct, none
-- that runs code is there unless the request allows that, each model is one of the configuration's
-- under its real name and there is one at least, the job is scheduled exactly if its time is more
-- than two seconds away, and never more than five past, and where keys are required there is one.
pub api_start_benchy-StartEnd :
    (c : Config) (env : StartEnv) (s : Store) (req : Option StartRequest)
    → StartEnd c env s (api_start_benchy c env s req).0 (api_start_benchy c env s req).1
unfolding api_start_benchy
api_start_benchy-StartEnd c env s none = elim (Bool-cases env.is_disabled) [
  | inl off ↦ rw off refl
  | inr on ↦ rw on refl
]
api_start_benchy-StartEnd c env s (some req) =
    if_holds (λ (r : Checked Started × Store). StartEnd c env s r.0 r.1) env.is_disabled refl
      (put_job-StartEnd c env s (start_checked c env req)
        (λ t e. start_checked-IsStarted c env req e))
