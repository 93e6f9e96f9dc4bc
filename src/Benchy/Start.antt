-- ===== src/Benchy/Start.antt =====
-- proxy/benchy.go: the checks of `apiStartBenchy` and the job that it makes.
use llama_swap.Base.{
  ℕ, ◌+◌, List, [], ◌∷◌, ◌++◌, Option, none, some, Bool, true, false, if◌then◌else◌, not, ltb, all,
}
use mathlib.Core.List.{reverse}
use llama_swap.Base.Integer.{ℤ, pos, is_positive, is_non_negative}
use llama_swap.Base.Text.{Text, codes, text_eq, contains, has_suffix, trim_space}
use llama_swap.Base.Bytes.{to_lower}
use llama_swap.Config.Types.{Config}
use llama_swap.Config.Names.{real_model_name}
use llama_swap.Benchy.Jobs.{JobStatus, scheduled, running, RunOptions}

pub data StartError : Type 0 where
  disabled invalid_body model_required base_url_required not_positive negative : StartError
  bad_latency_mode unknown_plugin no_plugin needs_code_exec max_concurrent_not_positive : StartError
  bad_start_at start_in_past missing_api_key no_job_id : StartError
  model_not_found : Text → StartError

pub data Checked {ℓ} (A : Type ℓ) : Type ℓ where
  accepted : A → Checked A
  refused : StartError → Checked A

infixl 5 ◌>>=◌ ◌>>◌
abbrev pub ◌>>=◌ {ℓ κ} : {A : Type ℓ} {B : Type κ} → Checked A → (A → Checked B) → Checked B
accepted a >>= next = next a
refused e >>= next = refused e

abbrev pub ◌>>◌ {ℓ κ} : {A : Type ℓ} {B : Type κ} → Checked A → Checked B → Checked B
check >> next = check >>= λ _. next

abbrev pub require : Bool → StartError → Checked (Unit {0})
require true e = accepted tt
require false e = refused e

-- `benchyStartRequest`.
pub record StartRequest : Type 0 where
  pub model : Text
  pub queue_models : List Text
  pub tokenizer : Text
  pub base_url : Text
  pub start_at : Text
  pub options : RunOptions
  pub trust_remote_code : Option Bool

-- What the handler gets from elsewhere: the environment, the clock, the parser of times, the home
-- directory, the key that the authentication left, a random id, and what the configuration's
-- metadata say of a model's tokenizer.
pub record StartEnv : Type 0 where
  pub is_disabled : Bool
  pub default_base_url : Text
  pub expand_leading_tilde : Text → Text
  pub default_output_dir : Text
  pub parse_time : Text → Option ℕ
  pub now : ℕ
  pub api_key : Text
  pub job_id : Option Text
  pub resolve_tokenizer : Text → Text → Text
  pub resolve_trust : Text → Option Bool → Bool

-- The names that are left of a queue; else the one model.
unfoldable pub trimmed_names : List Text → List Text
unfolding trim_space text_eq
trimmed_names [] = []
trimmed_names (raw ∷ queue) =
    let rest = trimmed_names queue in
    let s = trim_space raw in if text_eq s [] then rest else s ∷ rest

abbrev pub primary_only : Text → Checked (List Text)
primary_only s = if text_eq s [] then refused model_required else accepted (s ∷ [])

abbrev pub queue_or : Text → List Text → Checked (List Text)
queue_or primary [] = primary_only (trim_space primary)
queue_or primary (m ∷ ms) = accepted (m ∷ ms)

unfoldable pub normalize_benchy_queue_models : Text → List Text → Checked (List Text)
unfolding trimmed_names
normalize_benchy_queue_models primary queue = queue_or primary (trimmed_names queue)

abbrev pub with_real :
    Text → Option Text → Checked (List (Text × Text)) → Checked (List (Text × Text))
with_real requested none rest = refused (model_not_found requested)
with_real requested (some real) rest = rest >>= λ ms. accepted ((requested, real) ∷ ms)

unfoldable pub resolve_models : Config → List Text → Checked (List (Text × Text))
resolve_models c [] = accepted []
resolve_models c (m ∷ ms) = with_real m (real_model_name c m) (resolve_models c ms)

-- `strings.TrimRight(s, "/")`, on the reversed text.
abbrev pub drop_slashes : Text → Text
drop_slashes [] = []
drop_slashes (c ∷ s) =
    let rest = drop_slashes s in if text_eq (c ∷ []) (codes "/") then rest else c ∷ s

abbrev pub with_v1 : Text → Text
with_v1 s = if has_suffix s (codes "/v1") then s else s ++ codes "/v1"

unfoldable pub normalize_benchy_base_url : Text → Checked Text
normalize_benchy_base_url raw =
    let s = trim_space raw in
    if text_eq s []
    then refused base_url_required
    else accepted (with_v1 (reverse (drop_slashes (reverse s))))

abbrev pub or_default {ℓ} : {A : Type ℓ} → List A → List A → List A
or_default [] default = default
or_default (x ∷ xs) default = x ∷ xs

abbrev pub default_pp : List ℤ
default_pp = pos 512 ∷ pos 2048 ∷ pos 8192 ∷ []

abbrev pub default_tg : List ℤ
default_tg = pos 32 ∷ pos 128 ∷ []

unfoldable pub validate_positive_int_slice : List ℤ → Checked (Unit {0})
validate_positive_int_slice values = require (all is_positive values) not_positive

unfoldable pub validate_non_negative_int_slice : List ℤ → Checked (Unit {0})
validate_non_negative_int_slice values = require (all is_non_negative values) negative

abbrev pub latency_modes : List Text
latency_modes = [] ∷ codes "api" ∷ codes "generation" ∷ codes "none" ∷ []

unfoldable pub normalize_benchy_latency_mode : Text → Checked Text
unfolding to_lower trim_space contains
normalize_benchy_latency_mode raw =
    let v = to_lower (trim_space raw) in
    if contains latency_modes v then accepted v else refused bad_latency_mode

abbrev pub code_exec_plugins : List Text
code_exec_plugins =
    codes "all"
    ∷ codes "evalplus"
    ∷ codes "terminal_bench"
    ∷ codes "aider"
    ∷ codes "swebench_verified"
    ∷ []

abbrev pub plugin_choices : List Text
plugin_choices =
    codes "core6"
    ∷ codes "mmlu"
    ∷ codes "arc-c"
    ∷ codes "hellaswag"
    ∷ codes "winogrande"
    ∷ codes "gsm8k"
    ∷ codes "truthfulqa"
    ∷ codes "ifeval"
    ∷ code_exec_plugins

-- The loop of `normalizeIntelligencePlugins`; `seen` holds what `out` has.
unfoldable pub collect_plugins : List Text → List Text → Checked (List Text)
unfolding to_lower trim_space
collect_plugins seen [] = accepted []
collect_plugins seen (raw ∷ plugins) =
    let p = to_lower (trim_space raw) in
    let same = collect_plugins seen plugins in
    let more = collect_plugins (p ∷ seen) plugins >>= λ ps. accepted (p ∷ ps) in
    if text_eq p []
    then same
    else if not (contains plugin_choices p)
    then refused unknown_plugin
    else if contains seen p
    then same
    else more

unfoldable pub first_plugin_that_requires_code_exec : List Text → Option Text
first_plugin_that_requires_code_exec [] = none
first_plugin_that_requires_code_exec (p ∷ plugins) =
    let rest = first_plugin_that_requires_code_exec plugins in
    if contains code_exec_plugins p then some p else rest

abbrev pub is_none {ℓ} : {A : Type ℓ} → Option A → Bool
is_none none = true
is_none (some a) = false

abbrev pub has_any {ℓ} : {A : Type ℓ} → List A → Bool
has_any [] = false
has_any (x ∷ xs) = true

-- `parseBenchyStartAt`, then the test that the time is not past.
abbrev pub parsed_time : Option ℕ → Checked (Option ℕ)
parsed_time none = refused bad_start_at
parsed_time (some t) = accepted (some t)

unfoldable pub parse_benchy_start_at : StartEnv → Text → Checked (Option ℕ)
unfolding trim_space
parse_benchy_start_at env raw =
    let s = trim_space raw in if text_eq s [] then accepted none else parsed_time (env.parse_time s)

-- Times are in milliseconds.
abbrev pub not_past : ℕ → Option ℕ → Bool
not_past now none = true
not_past now (some t) = not (ltb (t + 5000) now)

abbrev pub first_status : ℕ → Option ℕ → JobStatus
first_status now none = running
first_status now (some t) = if ltb (now + 2000) t then scheduled else running

abbrev pub max_is_positive : Option ℤ → Bool
max_is_positive none = true
max_is_positive (some n) = is_positive n
