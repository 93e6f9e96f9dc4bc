-- ===== src/Tests/Groups.antt =====
-- proxy/processgroup.go on concrete inputs.
use llama_swap.Base.{◌≡◌, ◌≢◌, refl, List, [], ◌∷◌, none, some, true, false, arith}
use llama_swap.Base.Text.{
  codes, text_eq, contains, contains_text, has_prefix, trim_space, trim_left,
}
use llama_swap.Base.Dict.{lookup, insert}
use llama_swap.Config.Types.{ModelConfig, GroupConfig, Config, end}
use llama_swap.Config.Names.{find_config, real_model_name}
use llama_swap.Process.State.{
  stopped, starting, ready, state_eq, is_valid_transition, swap_state, force_state, Process,
  new_process,
}
use llama_swap.Process.Stop.{
  interfere, acquire, count_in, count_out, give_back, stop, stop_immediately, stop_command,
  await_exit, wait_for_cmd,
}
use llama_swap.Process.Start.{
  start, validate_command, contains_any, launch, check_health, finish_start,
}
use llama_swap.Process.Request.{proxy_request, serve}
use llama_swap.Process.Health.{first_delay}
use llama_swap.Process.Calm.{Outcome}
use llama_swap.Process.CalmRequest.{calm_request}
use llama_swap.Group.State.{
  ProcessGroup, immediately, create_processes, new_process_group, has_member, settings_found,
  settings_of, group_request, stop_previous, stop_process,
}
use llama_swap.Group.Created.{create_processes-Swapped, none-Swapped}
use llama_swap.Group.Requests.{calm_stop, EnoughFor, GroupEnd, group_request-GroupEnd}
use llama_swap.Group.Calls.{Call, call, requests, stops, call_all, AllFine}
use llama_swap.Group.Sequences.{call_all-one_runs}

abbrev pub model : ModelConfig
model = record {
  cmd = codes "serve";
  cmd_stop = [];
  proxy = codes "http://localhost:5800";
  aliases = [];
  check_endpoint = codes "none";
  unload_after = 0;
  use_model_name = [];
  concurrency_limit = 1;
  filters = record { strip_params = []; set_params = [] };
  macros = [];
  metadata = end;
  send_loading_state = none;
}

abbrev pub group : GroupConfig
group = record {
  swap = true;
  exclusive = true;
  persistent = false;
  members = codes "a" ∷ codes "b" ∷ [];
}

abbrev pub config : Config
config = record {
  health_check_timeout = 20;
  log_to_stdout = codes "proxy";
  models = (codes "a", model) ∷ (codes "b", model) ∷ [];
  groups = (codes "g", group) ∷ [];
  macros = [];
  aliases = [];
  start_port = 5800;
  preload = [];
  send_loading_state = false;
  required_api_keys = [];
  peers = [];
  allowed_origins = [];
}

abbrev pub started : ProcessGroup
started = record {
  config = config;
  id = codes "g";
  swap = true;
  exclusive = true;
  persistent = false;
  processes = create_processes config (codes "a" ∷ codes "b" ∷ []) [];
  last_used_process = [];
}

is_made : new_process_group (codes "g") config ≡ some started
unfolding new_process_group lookup text_eq
is_made = refl

abbrev outcome : Outcome
outcome = record {
  command = some (codes "serve");
  launch_fails = false;
  interval = 0;
  passes = λ k. true;
  takes = λ k. 10;
  fuel = 102;
}

enough : EnoughFor 20 outcome
unfolding first_delay
enough = (101, refl, ground arith)

named_a : codes "a" ≢ []
named_a e = cc

named_b : codes "b" ≢ []
named_b e = cc

abbrev calls : List Call
calls =
    requests (codes "a") outcome 1
    ∷ requests (codes "b") outcome 2
    ∷ stops (codes "a") immediately
    ∷ []

calls-AllFine : AllFine 20 calls
calls-AllFine = ((named_a, enough), ((named_b, enough), (tt, tt)))

abbrev process_b : Process
process_b = record {
  settings = settings_of (some model);
  health_check_timeout = 20;
  state = ready;
  wait_starting = 0;
  has_upstream = true;
  chan_open = true;
  running = true;
  ttl_running = false;
  failed_start_count = 0;
  in_flight = 0;
  slots = 0;
  limit = 1;
  last_request_handled = 2;
  emitted =
      record { old_state = starting; new_state = ready }
      ∷ record { old_state = stopped; new_state = starting }
      ∷ [];
}

at_b : lookup (codes "b") (call_all started calls).processes ≡ some process_b
unfolding call_all call lookup insert text_eq create_processes new_process find_config
    real_model_name group_request has_member contains stop_previous stop_process proxy_request
    acquire count_in count_out give_back serve start validate_command contains_any contains_text
    has_prefix launch interfere check_health finish_start swap_state force_state state_eq
    is_valid_transition trim_space trim_left stop stop_immediately stop_command await_exit
    wait_for_cmd
at_b = refl

call_all-one_runs_example : codes "b" ≡ codes "b"
call_all-one_runs_example =
    call_all-one_runs config (codes "g") started calls (codes "b") (codes "b") process_b process_b
      is_made refl calls-AllFine at_b at_b refl refl

a_at :
    lookup (codes "a") started.processes
    ≡ some (new_process 20 (settings_found (find_config config (codes "a"))))
unfolding create_processes find_config real_model_name lookup insert text_eq
a_at = refl

a-member : has_member started (codes "a") ≡ true
unfolding has_member lookup contains text_eq
a-member = refl

group_request-GroupEnd_example :
    GroupEnd 20 (codes "a") (group_request started (codes "a") calm_stop (calm_request outcome 3))
group_request-GroupEnd_example =
    group_request-GroupEnd 20 started (codes "a") outcome 3
      (new_process 20 (settings_found (find_config config (codes "a")))) refl
      (create_processes-Swapped config (codes "a" ∷ codes "b" ∷ []) [] (none-Swapped 20)) named_a
      a-member a_at enough
