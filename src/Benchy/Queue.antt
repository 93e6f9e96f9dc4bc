-- ===== src/Benchy/Queue.antt =====
-- proxy/benchy.go: `runBenchyJob`, `runBenchyQueueJob` and the ends of `executeBenchyProcess`.
use llama_swap.Base.{
  ℕ, ◌+◌, List, [], ◌∷◌, ◌++◌, Option, none, some, Bool, true, false, if◌then◌else◌, length,
}
use llama_swap.Base.Integer.{ℤ, pos}
use llama_swap.Base.Text.{Text, codes}
use llama_swap.Base.Decimal.{decimal}
use llama_swap.Benchy.Jobs.{
  JobStatus, scheduled, running, done, failed, canceled, Store, Stream, out, append_benchy_output,
  append_all, set_benchy_runtime_status, set_benchy_queue_progress, finish_benchy_job,
}

-- How `exec.Cmd` goes: no program, no start, an end with or without an error, or the context is
-- done first. An exit code is none where the error carries none.
pub data CommandEnd : Type 0 where
  no_program no_start : Text → CommandEnd
  exits_well context_done : CommandEnd
  exits_badly : Option ℤ → Text → CommandEnd

-- The three results of `executeBenchyProcess`. The flag says whether the context was canceled when
-- the command ended.
pub record Execution : Type 0 where
  pub status : JobStatus
  pub exit_code : Option ℤ
  pub error : Option Text

abbrev execution : JobStatus → Option ℤ → Option Text → Execution
execution s c e = record { status = s; exit_code = c; error = e }

unfoldable pub execute_benchy_process : Bool → CommandEnd → Execution
execute_benchy_process was_canceled (no_program e) = execution failed none (some e)
execute_benchy_process was_canceled (no_start e) = execution failed none (some e)
execute_benchy_process was_canceled exits_well = execution done (some (pos 0)) none
execute_benchy_process was_canceled context_done = execution canceled none none
execute_benchy_process true (exits_badly code e) = execution canceled code none
execute_benchy_process false (exits_badly code e) = execution failed code (some e)

-- How `waitForScheduledBenchyStart` ends, with what it says.
pub data Waiting : Type 0 where
  no_schedule : Waiting
  reached : Text → Waiting
  waits : Text → Waiting
  wait_canceled : Text → Waiting

abbrev pub reached_message : Text
reached_message = codes "[benchy] schedule reached, starting benchmark\n"

abbrev pub say : Store → Text → Text → Store
say s id chunk = append_benchy_output s id out chunk

-- The store, and whether the job may start.
unfoldable pub wait_for_scheduled_benchy_start : Store → Text → Waiting → Store × Bool
wait_for_scheduled_benchy_start s id no_schedule = (set_benchy_runtime_status s id running, true)
wait_for_scheduled_benchy_start s id (reached note) =
    (set_benchy_runtime_status (say s id note) id running, true)
wait_for_scheduled_benchy_start s id (waits note) = (
  say
      (set_benchy_runtime_status (set_benchy_runtime_status (say s id note) id scheduled) id
        running)
      id reached_message,
  true,
)
wait_for_scheduled_benchy_start s id (wait_canceled note) =
    (set_benchy_runtime_status (say s id note) id scheduled, false)

-- One model of a queue, and what happens in its round: whether the context is canceled before,
-- how `ensureBenchyModelReady` ends, what the command prints and how it ends. Times are those of the
-- calls of `finishBenchyJob`.
pub data Ready : Type 0 where
  ready load_canceled : Ready
  not_ready : Text → Ready

pub record Round : Type 0 where
  pub requested : Text
  pub real : Text
  pub canceled_before : Bool
  pub loading : Ready
  pub printed : List (Stream × Text)
  pub canceled_at_end : Bool
  pub command : CommandEnd
  pub now : ℕ

-- What a run does to the models, the first first.
pub data Effect : Type 0 where
  loads executes stops : Text → Effect

abbrev pub progress : Text → ℕ → ℕ → Text → Text → Text
progress before index total what model =
    before
    ++ (codes "[queue] ("
        ++ (decimal (index + 1)
            ++ (b'/' ∷ (decimal total ++ (codes ") " ++ (what ++ (model ++ codes "\n")))))))

abbrev pub at_begin : Store → Text → ℕ → ℕ → Round → Store
at_begin s id index total r =
    say (set_benchy_queue_progress s id index r.requested index) id
      (progress (codes "\n") index total (codes "loading model ") r.requested)

abbrev pub at_run : Store → Text → ℕ → ℕ → Round → Store
at_run s id index total r =
    append_all (say s id (progress [] index total (codes "running benchy for ") r.requested)) id
      r.printed

abbrev pub at_end : Store → Text → ℕ → ℕ → Round → Store
at_end s id index total r =
    set_benchy_queue_progress (say s id (progress [] index total (codes "completed ") r.requested))
      id (index + 1) [] (index + 1)

abbrev pub load_error : Round → Text → Text
load_error r e = codes "failed to load model " ++ (r.requested ++ (codes ": " ++ e))

abbrev pub run_error : Round → Text → Text
run_error r e = codes "benchy failed for model " ++ (r.requested ++ (codes ": " ++ e))

-- One round: the store, the effects, and whether the loop goes on.
pub record RoundEnd : Type 0 where
  pub store : Store
  pub effects : List Effect
  pub goes_on : Bool

abbrev pub full : Text → List Effect
full model = loads model ∷ executes model ∷ stops model ∷ []

abbrev pub ends : Store → List Effect → RoundEnd
ends s t = record { store = s; effects = t; goes_on = false }

-- Once the command has ended and the model is stopped.
abbrev pub end_without_error : Store → Text → ℕ → ℕ → Round → Option ℤ → Option Text → RoundEnd
end_without_error s id index total r code none = record {
  store = at_end s id index total r;
  effects = full r.real;
  goes_on = true;
}
end_without_error s id index total r code (some e) =
    ends (finish_benchy_job s id failed code (some (run_error r e)) r.now) (full r.real)

abbrev pub is_canceled : JobStatus → Bool
is_canceled canceled = true
is_canceled _ = false

abbrev pub after_run : Store → Text → ℕ → ℕ → Round → Execution → RoundEnd
after_run s id index total r x =
    if is_canceled x.status
    then ends (finish_benchy_job s id canceled x.exit_code none r.now) (full r.real)
    else end_without_error s id index total r x.exit_code x.error

abbrev pub after_load : Store → Text → ℕ → ℕ → Round → Ready → RoundEnd
after_load s id index total r load_canceled =
    ends (finish_benchy_job s id canceled none none r.now) (loads r.real ∷ [])
after_load s id index total r (not_ready e) =
    ends (finish_benchy_job s id failed none (some (load_error r e)) r.now)
      (loads r.real ∷ stops r.real ∷ [])
after_load s id index total r ready =
    after_run (at_run s id index total r) id index total r
      (execute_benchy_process r.canceled_at_end r.command)

unfoldable pub run_round : Store → Text → ℕ → ℕ → Round → RoundEnd
unfolding execute_benchy_process
run_round s id index total r =
    if r.canceled_before
    then ends (finish_benchy_job s id canceled none none r.now) []
    else after_load (at_begin s id index total r) id index total r r.loading

-- The loop; `last` is the time at which it is over.
unfoldable pub run_rounds : Store → Text → ℕ → ℕ → ℕ → List Round → Store × List Effect
unfolding run_round
run_rounds s id index total last [] = (finish_benchy_job s id done (some (pos 0)) none last, [])
run_rounds s id index total last (r ∷ rs) =
    let e = run_round s id index total r in
    let rest = run_rounds e.store id (index + 1) total last rs in
    if e.goes_on then (rest.0, e.effects ++ rest.1) else (e.store, e.effects)

abbrev pub if_started : Text → ℕ → ℕ → List Round → Store × Bool → Store × List Effect
if_started id first last rs (s, true) = run_rounds s id 0 (length rs) last rs
if_started id first last rs (s, false) = (finish_benchy_job s id canceled none none first, [])

unfoldable pub run_benchy_queue_job :
    Store → Text → Waiting → ℕ → ℕ → List Round → Store × List Effect
unfolding run_rounds wait_for_scheduled_benchy_start
run_benchy_queue_job s id waiting first last [] =
    (finish_benchy_job s id failed none (some (codes "empty benchy queue")) first, [])
run_benchy_queue_job s id waiting first last (r ∷ rs) =
    if_started id first last (r ∷ rs) (wait_for_scheduled_benchy_start s id waiting)

-- `runBenchyJob`, for one model that the command itself reaches through the proxy.
abbrev pub run_started : Text → List (Stream × Text) → Execution → ℕ → Store × Bool → Store
run_started id printed x now (s, true) =
    finish_benchy_job (append_all s id printed) id x.status x.exit_code x.error now
run_started id printed x now (s, false) = finish_benchy_job s id canceled none none now

unfoldable pub run_benchy_job :
    Store → Text → Waiting → List (Stream × Text) → Bool → CommandEnd → ℕ → Store
unfolding wait_for_scheduled_benchy_start execute_benchy_process
run_benchy_job s id waiting printed was_canceled command now =
    run_started id printed (execute_benchy_process was_canceled command) now
      (wait_for_scheduled_benchy_start s id waiting)
