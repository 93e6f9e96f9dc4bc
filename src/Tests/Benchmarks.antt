-- ===== src/Tests/Benchmarks.antt =====
-- proxy/benchy.go on concrete inputs.
use llama_swap.Base.{◌≡◌, refl, [], ◌∷◌, ◌++◌, none, some, true, false}
use llama_swap.Base.Integer.{pos}
use llama_swap.Base.Text.{Text, codes, text_eq}
use llama_swap.Base.Dict.{lookup}
use llama_swap.Benchy.Jobs.{RunOptions, Job, Store, out, err, running, append_all}
use llama_swap.Benchy.Queue.{Round, ready, exits_well, no_schedule, run_benchy_queue_job}
use llama_swap.Benchy.Rounds.{RunEnd, run_benchy_queue_job-RunEnd}
use llama_swap.Benchy.Ends.{JobAt}
use llama_swap.Benchy.Output.{Prints, printed_on, append_all-Prints}
use llama_swap.Benchy.Start.{StartRequest, StartEnv}
use llama_swap.Benchy.Handler.{api_start_benchy}
use llama_swap.Benchy.Started.{StartEnd, api_start_benchy-StartEnd}
use llama_swap.Benchy.Args.{build_benchy_args}
use llama_swap.Tests.Groups.{config}

abbrev options : RunOptions
options = record {
  pp = [];
  tg = pos 16 ∷ [];
  depth = [];
  concurrency = pos 1 ∷ [];
  runs = pos 2;
  latency_mode = codes " API ";
  no_cache = true;
  no_warmup = false;
  adapt_prompt = none;
  enable_prefix_caching = false;
  enable_intelligence = false;
  intelligence_plugins = codes "Aider" ∷ codes "mmlu" ∷ codes "aider " ∷ [];
  allow_code_exec = true;
  dataset_cache_dir = [];
  output_dir = [];
  max_concurrent = none;
  trust_remote_code = false;
}

abbrev job : Job
job = record {
  model = codes "a";
  queue_models = codes "a" ∷ codes "b" ∷ [];
  current_index = 0;
  current_model = codes "a";
  completed_count = 0;
  tokenizer = codes "t";
  scheduled_at = none;
  base_url = codes "http://h/v1";
  options = options;
  status = running;
  started_at = 1;
  finished_at = none;
  exit_code = none;
  stdout = [];
  stderr = [];
  error = [];
}

abbrev store : Store
store = record { jobs = (codes "j", job) ∷ []; cancels = codes "j" ∷ []; canceled = [] }

abbrev round : Text → Round
round model = record {
  requested = model;
  real = model;
  canceled_before = false;
  loading = ready;
  printed = (out, codes "ok\n") ∷ [];
  canceled_at_end = false;
  command = exits_well;
  now = 5;
}

job_there : JobAt store (codes "j") 0
unfolding lookup text_eq
job_there = (job, refl, refl)

run_benchy_queue_job-RunEnd_example :
    RunEnd (codes "j") (round (codes "a") ∷ round (codes "b") ∷ []) 0 (
      run_benchy_queue_job store
        (codes "j")
        no_schedule
        2
        9
        (round (codes "a") ∷ round (codes "b") ∷ []))
run_benchy_queue_job-RunEnd_example =
    run_benchy_queue_job-RunEnd store (codes "j") no_schedule 2 9 (round (codes "a"))
      (round (codes "b") ∷ []) job_there

no_output-Prints : Prints store (codes "j") out []
unfolding lookup text_eq
no_output-Prints = (job, refl, refl)

append_all-Prints_example :
    Prints
      (append_all store (codes "j") ((out, codes "a") ∷ (err, codes "b") ∷ []))
      (codes "j")
      out
      ([] ++ printed_on out ((out, codes "a") ∷ (err, codes "b") ∷ []))
append_all-Prints_example =
    append_all-Prints ((out, codes "a") ∷ (err, codes "b") ∷ []) store (codes "j") out []
      no_output-Prints

abbrev start_env : StartEnv
start_env = record {
  is_disabled = false;
  default_base_url = codes "http://localhost/v1";
  expand_leading_tilde = λ s. s;
  default_output_dir = codes "/tmp/runs";
  parse_time = λ s. none;
  now = 100;
  api_key = [];
  job_id = some (codes "k");
  resolve_tokenizer = λ real fixed. fixed;
  resolve_trust = λ real asked. false;
}

abbrev request : StartRequest
request = record {
  model = codes " a ";
  queue_models = [];
  tokenizer = codes "t";
  base_url = codes "http://h/";
  start_at = [];
  options = options;
  trust_remote_code = none;
}

api_start_benchy-StartEnd_example :
    StartEnd config start_env store
      (api_start_benchy config start_env store (some request)).0
      (api_start_benchy config start_env store (some request)).1
api_start_benchy-StartEnd_example = api_start_benchy-StartEnd config start_env store (some request)

some_args :
    build_benchy_args
      (codes "u")
      (codes "d")
      (codes "s")
      (codes "t")
      []
      (record options { runs = pos 2; concurrency = []; latency_mode = [] })
    ≡ codes "--base-url"
      ∷ codes "u"
      ∷ codes "--model"
      ∷ codes "d"
      ∷ codes "--served-model-name"
      ∷ codes "s"
      ∷ codes "--tokenizer"
      ∷ codes "t"
      ∷ codes "--runs"
      ∷ codes "2"
      ∷ codes "--pp"
      ∷ codes "--tg"
      ∷ codes "16"
      ∷ codes "--no-cache"
      ∷ []
unfolding build_benchy_args text_eq
some_args = refl
