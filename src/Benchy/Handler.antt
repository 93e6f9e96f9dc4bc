-- ===== src/Benchy/Handler.antt =====
-- proxy/benchy.go: `apiStartBenchy`, up to the goroutine that runs the job.
use llama_swap.Base.{List, [], ◌∷◌, Option, none, some, if◌then◌else◌, ◌&&◌, ◌||◌, not}
use llama_swap.Base.Integer.{ℤ, pos, is_positive}
use llama_swap.Base.Text.{Text, text_eq, trim_space}
use llama_swap.Base.Dict.{insert}
use llama_swap.Config.Types.{Config}
use llama_swap.Benchy.Jobs.{RunOptions, Job, Store}
use llama_swap.Benchy.Start.{
  disabled, invalid_body, no_plugin, needs_code_exec, max_concurrent_not_positive, start_in_past,
  missing_api_key, no_job_id, Checked, accepted, refused, ◌>>=◌, ◌>>◌, require, StartRequest,
  StartEnv, normalize_benchy_queue_models, resolve_models, normalize_benchy_base_url, or_default,
  default_pp, default_tg, validate_positive_int_slice, validate_non_negative_int_slice,
  normalize_benchy_latency_mode, collect_plugins, first_plugin_that_requires_code_exec, is_none,
  has_any, parse_benchy_start_at, not_past, first_status, max_is_positive,
}

abbrev pub given_or : Text → Text → Text
given_or s default = if text_eq s [] then default else s

abbrev pub runs_or_default : ℤ → ℤ
runs_or_default n = if is_positive n then n else pos 5

-- The options once they are checked.
unfoldable pub check_options : StartEnv → RunOptions → Checked RunOptions
check_options env o = do
  let pp = or_default o.pp default_pp
  validate_positive_int_slice pp
  let tg = or_default o.tg default_tg
  validate_positive_int_slice tg
  validate_non_negative_int_slice o.depth
  validate_positive_int_slice o.concurrency
  latency_mode ← normalize_benchy_latency_mode o.latency_mode
  plugins ← collect_plugins [] o.intelligence_plugins
  let enable = o.enable_intelligence || has_any plugins
  require (not enable || has_any plugins) no_plugin
  require
      (not enable || (o.allow_code_exec || is_none (first_plugin_that_requires_code_exec plugins)))
      needs_code_exec
  let output_dir = env.expand_leading_tilde (trim_space o.output_dir)
  require (max_is_positive o.max_concurrent) max_concurrent_not_positive
  accepted (record o {
    pp = pp;
    tg = tg;
    runs = runs_or_default o.runs;
    latency_mode = latency_mode;
    enable_intelligence = enable;
    intelligence_plugins = plugins;
    dataset_cache_dir = env.expand_leading_tilde (trim_space o.dataset_cache_dir);
    output_dir = if enable && text_eq output_dir [] then env.default_output_dir else output_dir;
  })

-- The job, its id, the models with their real names, and the key.
pub record Started : Type 0 where
  pub id : Text
  pub job : Job
  pub models : List (Text × Text)
  pub api_key : Text

abbrev pub first_name : List (Text × Text) → Text × Text
first_name [] = ([], [])
first_name (m ∷ ms) = m

abbrev pub queue_names : List Text → List Text
queue_names [] = []
queue_names (m ∷ []) = []
queue_names (m ∷ (k ∷ ms)) = m ∷ k ∷ ms

abbrev pub queue_first : List Text → Text
queue_first [] = []
queue_first (m ∷ []) = []
queue_first (m ∷ (k ∷ ms)) = m

abbrev pub checked_id : Option Text → Checked Text
checked_id none = refused no_job_id
checked_id (some id) = accepted id

abbrev pub key_of : Config → StartEnv → Text
key_of c env = if has_any c.required_api_keys then env.api_key else []

unfoldable pub start_checked : Config → StartEnv → StartRequest → Checked Started
unfolding check_options
start_checked c env req = do
  names ← normalize_benchy_queue_models req.model req.queue_models
  models ← resolve_models c names
  base_url ← normalize_benchy_base_url (given_or (trim_space req.base_url) env.default_base_url)
  options ← check_options env req.options
  start_at ← parse_benchy_start_at env req.start_at
  require (not_past env.now start_at) start_in_past
  require (not (has_any c.required_api_keys) || not (text_eq env.api_key [])) missing_api_key
  id ← checked_id env.job_id
  let (requested, real) = first_name models
  accepted (record {
    id = id;
    job = record {
      model = requested;
      queue_models = queue_names names;
      current_index = 0;
      current_model = queue_first names;
      completed_count = 0;
      tokenizer = env.resolve_tokenizer real (trim_space req.tokenizer);
      scheduled_at = start_at;
      base_url = base_url;
      options = record options { trust_remote_code = env.resolve_trust real req.trust_remote_code };
      status = first_status env.now start_at;
      started_at = env.now;
      finished_at = none;
      exit_code = none;
      stdout = [];
      stderr = [];
      error = [];
    };
    models = models;
    api_key = key_of c env;
  })

abbrev pub put_job : Store → Checked Started → Checked Started × Store
put_job s (refused e) = (refused e, s)
put_job s (accepted t) =
    (accepted t, record s { jobs = insert t.id t.job s.jobs; cancels = t.id ∷ s.cancels })

-- `apiStartBenchy`; `none` is a body that is not JSON.
unfoldable pub api_start_benchy :
    Config → StartEnv → Store → Option StartRequest → Checked Started × Store
unfolding start_checked
api_start_benchy c env s none =
    (if env.is_disabled then refused disabled else refused invalid_body, s)
api_start_benchy c env s (some req) =
    if env.is_disabled then (refused disabled, s) else put_job s (start_checked c env req)
