-- ===== src/Process/State.antt =====
-- proxy/process.go: `ProcessState`, `Process`, `swapState`, `isValidTransition`, `forceState`.
use llama_swap.Base.{
  ℕ, suc, List, [], ◌∷◌, Option, none, some, Bool, true, false, if◌then◌else◌, ◌||◌, ltb,
}
use llama_swap.Base.Text.{Text}

pub data State : Type 0 where
  stopped starting ready stopping shutdown : State

unfoldable pub state_eq : State → State → Bool
state_eq stopped stopped = true
state_eq starting starting = true
state_eq ready ready = true
state_eq stopping stopping = true
state_eq shutdown shutdown = true
state_eq _ _ = false

unfoldable pub is_valid_transition : State → State → Bool
unfolding state_eq
is_valid_transition stopped to = state_eq to starting
is_valid_transition starting to = state_eq to ready || (state_eq to stopping || state_eq to stopped)
is_valid_transition ready to = state_eq to stopping
is_valid_transition stopping to = state_eq to stopped || state_eq to shutdown
is_valid_transition shutdown to = false

-- `config.ModelConfig`, the fields that this file reads.
pub record Settings : Type 0 where
  pub proxy : Text
  pub concurrency_limit : ℕ
  pub unload_after : ℕ
  pub check_endpoint : Text

-- `ProcessStateChangeEvent`.
pub record Change : Type 0 where
  pub old_state : State
  pub new_state : State

-- `running` says that the command was launched and `waitForCmd` has not returned, `chan_open` that
-- `cmdWaitChan` is one that nobody has closed.
-- `has_upstream` says that `cancelUpstream` is not nil, `ttl_running` that the goroutine of
-- `cancelTTL` has not been cancelled. `slots` is the number of tokens in the semaphore, whose
-- capacity is `limit`. `in_flight` is both the wait group and the counter, which are changed
-- together. `emitted` lists the events, the latest first.
pub record Process : Type 0 where
  pub settings : Settings
  pub health_check_timeout : ℕ
  pub state : State
  pub wait_starting : ℕ
  pub has_upstream : Bool
  pub chan_open : Bool
  pub running : Bool
  pub ttl_running : Bool
  pub failed_start_count : ℕ
  pub in_flight : ℕ
  pub slots : ℕ
  pub limit : ℕ
  pub last_request_handled : ℕ
  pub emitted : List Change

-- `NewProcess`; a limit that is not positive is replaced by 10.
unfoldable pub new_process : ℕ → Settings → Process
new_process timeout c = record {
  settings = c;
  health_check_timeout = timeout;
  state = stopped;
  wait_starting = 0;
  has_upstream = false;
  chan_open = true;
  running = false;
  ttl_running = false;
  failed_start_count = 0;
  in_flight = 0;
  slots = 0;
  limit = if ltb 0 c.concurrency_limit then c.concurrency_limit else 10;
  last_request_handled = 0;
  emitted = [];
}

pub data SwapError : Type 0 where
  expected_state_mismatch invalid_state_transition : SwapError

abbrev entered : State → ℕ → ℕ
entered starting n = suc n
entered _ n = n

-- `swapState`: the process, the state that it reports and the error.
unfoldable pub swap_state : Process → State → State → Process × State × Option SwapError
swap_state p expected to =
    if state_eq p.state expected
    then (if is_valid_transition p.state to
        then (
          record p {
            state = to;
            wait_starting = entered to p.wait_starting;
            emitted = record { old_state = expected; new_state = to } ∷ p.emitted;
          },
          to,
          none,
        )
        else (p, p.state, some invalid_state_transition))
    else (p, p.state, some expected_state_mismatch)

unfoldable pub force_state : Process → State → Process
force_state p to = record p { state = to }
