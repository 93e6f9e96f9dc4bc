-- ===== src/Benchy/Accepted.antt =====
-- proxy/benchy.go: what a job that `apiStartBenchy` starts satisfies.
use llama_swap.Base.{
  ◌≡◌, refl, subst, inl, inr, List, [], ◌∷◌, Bool, true, ◌||◌, not, all, arith, Bool-cases,
}
use llama_swap.Base.Integer.{ℤ, is_positive, is_non_negative}
use llama_swap.Base.Text.{Text, contains, trim_space}
use llama_swap.Base.Bytes.{to_lower}
use llama_swap.Base.Sort.{Distinct}
use llama_swap.Benchy.Jobs.{RunOptions}
use llama_swap.Benchy.Start.{
  no_plugin, needs_code_exec, max_concurrent_not_positive, accepted, require, StartEnv, or_default,
  default_pp, default_tg, validate_positive_int_slice, validate_non_negative_int_slice,
  latency_modes, normalize_benchy_latency_mode, code_exec_plugins, collect_plugins,
  first_plugin_that_requires_code_exec, is_none, has_any, max_is_positive,
}
use llama_swap.Benchy.Handler.{runs_or_default, check_options}
use llama_swap.Benchy.Plugins.{
  step_accepted, require-true, accepted_injective, Known, collect_plugins-Collected, contains_none,
  needs_exec,
}

-- Options that have passed the checks.
pub record IsChecked (o : RunOptions) : Type 0 where
  pub pp_positive : (all is_positive o.pp ≡ true) × (has_any o.pp ≡ true)
  pub tg_positive : (all is_positive o.tg ≡ true) × (has_any o.tg ≡ true)
  pub depth_not_negative : all is_non_negative o.depth ≡ true
  pub concurrency_positive : all is_positive o.concurrency ≡ true
  pub runs_positive : is_positive o.runs ≡ true
  pub latency_known : contains latency_modes o.latency_mode ≡ true
  pub plugins_known : Known o.intelligence_plugins
  pub plugins_distinct : Distinct o.intelligence_plugins
  pub plugins_if_enabled : o.enable_intelligence ≡ has_any o.intelligence_plugins
  pub exec_allowed :
      (p : Text)
      → contains o.intelligence_plugins p ≡ true
      → contains code_exec_plugins p ≡ true
      → o.allow_code_exec ≡ true
  pub concurrent_positive : max_is_positive o.max_concurrent ≡ true

plugins_enabled : (e has : Bool) → (not (e || has) || has) ≡ true → (e || has) ≡ has
plugins_enabled e has h = ground arith

exec_allowed_lem :
    (ps : List Text) (allow : Bool)
    → (not (has_any ps) || (allow || is_none (first_plugin_that_requires_code_exec ps))) ≡ true
    → (p : Text) → contains ps p ≡ true
    → contains code_exec_plugins p ≡ true
    → allow ≡ true
exec_allowed_lem [] allow h p c e = absurd (contains_none p c)
exec_allowed_lem (q ∷ ps) allow h p c e = ground (arith, h, needs_exec (q ∷ ps) p c e)

default_filled :
    (values default : List ℤ) → has_any default ≡ true → has_any (or_default values default) ≡ true
default_filled [] default h = h
default_filled (v ∷ vs) default h = refl

runs_lem : (n : ℤ) → is_positive (runs_or_default n) ≡ true
runs_lem n = elim (Bool-cases (is_positive n)) [
  | inl here ↦ rw here here
  | inr missing ↦ rw missing refl
]

latency_lem :
    (raw : Text) {v : Text}
    → normalize_benchy_latency_mode raw ≡ accepted v
    → contains latency_modes v ≡ true
unfolding normalize_benchy_latency_mode
latency_lem raw {v} h = elim (Bool-cases (contains latency_modes (to_lower (trim_space raw)))) [
  | inl fine ↦
      subst (λ (x : Text). contains latency_modes x ≡ true) (accepted_injective (rw fine at h)) fine
  | inr bad ↦ cc (rw bad at h)
]

pub check_options-IsChecked :
    (env : StartEnv) (o : RunOptions) {c : RunOptions}
    → check_options env o ≡ accepted c
    → IsChecked c
unfolding check_options validate_positive_int_slice validate_non_negative_int_slice
check_options-IsChecked env o h =
    let pp = or_default o.pp default_pp in
    let tg = or_default o.tg default_tg in
    let (_, a, h₁) = step_accepted (validate_positive_int_slice pp) _ h in
    let (_, b, h₂) = step_accepted (validate_positive_int_slice tg) _ h₁ in
    let (_, d, h₃) = step_accepted (validate_non_negative_int_slice o.depth) _ h₂ in
    let (_, n, h₄) = step_accepted (validate_positive_int_slice o.concurrency) _ h₃ in
    let (mode, l, h₅) = step_accepted (normalize_benchy_latency_mode o.latency_mode) _ h₄ in
    let (ps, p, h₆) = step_accepted (collect_plugins [] o.intelligence_plugins) _ h₅ in
    let enable = o.enable_intelligence || has_any ps in
    let (_, q, h₇) = step_accepted (require (not enable || has_any ps) no_plugin) _ h₆ in
    let (_, x, h₈) =
      step_accepted
        (require
          (not enable || (o.allow_code_exec || is_none (first_plugin_that_requires_code_exec ps)))
          needs_code_exec)
        _ h₇ in
    let (_, m, h₉) =
      step_accepted (require (max_is_positive o.max_concurrent) max_concurrent_not_positive) _ h₈ in
    let on = plugins_enabled o.enable_intelligence (has_any ps) (require-true _ _ q) in
    let got = collect_plugins-Collected o.intelligence_plugins [] p in
    subst IsChecked (accepted_injective h₉) (record {
      pp_positive = (require-true _ _ a, default_filled o.pp default_pp refl);
      tg_positive = (require-true _ _ b, default_filled o.tg default_tg refl);
      depth_not_negative = require-true _ _ d;
      concurrency_positive = require-true _ _ n;
      runs_positive = runs_lem o.runs;
      latency_known = latency_lem o.latency_mode l;
      plugins_known = got.known;
      plugins_distinct = got.distinct;
      plugins_if_enabled = on;
      exec_allowed = exec_allowed_lem ps o.allow_code_exec (
          subst
            (λ (y : Bool).
              (not y || (o.allow_code_exec || is_none (first_plugin_that_requires_code_exec ps)))
              ≡ true)
            on (require-true _ _ x));
      concurrent_positive = require-true _ _ m;
    })
