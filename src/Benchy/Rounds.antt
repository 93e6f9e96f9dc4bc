-- ===== src/Benchy/Rounds.antt =====
-- proxy/benchy.go: how a queue of benchmarks ends, round by round.
use llama_swap.Base.{
  ℕ, suc, ◌+◌, ◌≡◌, refl, ap, subst, inl, inr, List, [], ◌∷◌, ◌++◌, Option, none, some, Bool, true,
  false, if◌then◌else◌, length, if_holds, arith,
}
use llama_swap.Base.Integer.{ℤ, pos}
use llama_swap.Base.Text.{Text, codes}
use llama_swap.Benchy.Jobs.{
  JobStatus, scheduled, running, done, failed, canceled, Store, out, set_benchy_runtime_status,
  set_benchy_queue_progress, finish_benchy_job,
}
use llama_swap.Benchy.Queue.{
  progress, run_error, load_error, reached_message, Execution, execute_benchy_process, Waiting,
  no_schedule, reached, waits, wait_canceled, wait_for_scheduled_benchy_start, say, Ready, ready,
  load_canceled, not_ready, Round, Effect, at_begin, at_run, RoundEnd, full, end_without_error,
  is_canceled, after_run, after_load, run_round, run_rounds, if_started, run_benchy_queue_job,
}
use llama_swap.Benchy.Ends.{
  Stopped, Runs, JobAt, EndedAs, append-JobAt, append_all-JobAt, status-JobAt, progress-JobAt,
  finish-EndedAs,
}

-- How a round leaves the job: it goes on with one model more completed, or the run has ended.
abbrev GoesOn : Text → ℕ → Round → Bool → Store → List Effect → Type 0
GoesOn id n r true s t = (t ≡ full r.real) × JobAt s id (n + 1)
GoesOn id n r false s t = (status : JobStatus) × Stopped r.real status t × EndedAs s id status n

abbrev RoundOk : Text → ℕ → Round → RoundEnd → Type 0
RoundOk id n r e = GoesOn id n r e.goes_on e.store e.effects

module _ (id : Text) (n total : ℕ) (r : Round) where
  ended_without_error :
      (s : Store) (code : Option ℤ) (e : Option Text)
      → JobAt s id n
      → RoundOk id n r (end_without_error s id n total r code e)
  ended_without_error s code none h = (
    refl,
    progress-JobAt (say s id (progress [] n total (codes "completed ") r.requested)) id (n + 1) [] n
        (append-JobAt s id out (progress [] n total (codes "completed ") r.requested) n h),
  )
  ended_without_error s code (some e) h = (
    failed,
    inr (refl, inr refl),
    finish-EndedAs s id failed code (some (run_error r e)) r.now n h,
  )

  after_run-RoundOk :
      (s : Store) (x : Execution) → JobAt s id n → RoundOk id n r (after_run s id n total r x)
  after_run-RoundOk s x h =
      if_holds (λ (e : RoundEnd). RoundOk id n r e) (is_canceled x.status)
        (
          canceled,
          inl (refl, inr (inr refl)),
          finish-EndedAs s id canceled x.exit_code none r.now n h,
        )
        (ended_without_error s x.exit_code x.error h)

  after_load-RoundOk :
      (s : Store) (l : Ready) → JobAt s id n → RoundOk id n r (after_load s id n total r l)
  after_load-RoundOk s load_canceled h =
      (canceled, inl (refl, inr (inl refl)), finish-EndedAs s id canceled none none r.now n h)
  after_load-RoundOk s (not_ready e) h = (
    failed,
    inr (refl, inl refl),
    finish-EndedAs s id failed none (some (load_error r e)) r.now n h,
  )
  after_load-RoundOk s ready h =
      after_run-RoundOk (at_run s id n total r) (execute_benchy_process r.canceled_at_end r.command)
        (append_all-JobAt r.printed
          (say s id (progress [] n total (codes "running benchy for ") r.requested)) id n
          (append-JobAt s id out (progress [] n total (codes "running benchy for ") r.requested) n
            h))

  run_round-RoundOk : (s : Store) → JobAt s id n → RoundOk id n r (run_round s id n total r)
  unfolding run_round
  run_round-RoundOk s h =
      if_holds (λ (e : RoundEnd). RoundOk id n r e) r.canceled_before
        (canceled, inl (refl, inl refl), finish-EndedAs s id canceled none none r.now n h)
        (after_load-RoundOk (at_begin s id n total r) r.loading (
          append-JobAt (set_benchy_queue_progress s id n r.requested n) id out
            (progress (codes "\n") n total (codes "loading model ") r.requested) n
            (progress-JobAt s id n r.requested n h)))

-- A run that has come to an end.
abbrev pub RunEnd : Text → List Round → ℕ → Store × List Effect → Type 0
RunEnd id rs n (s, t) =
    (status : JobStatus) × (m : ℕ) × Runs rs status t m × EndedAs s id status (n + m)

run_step :
    (id : Text) (n : ℕ) (r : Round) (rs : List Round) (goes : Bool) (s : Store) (t : List Effect)
    (rest : Store × List Effect)
    → GoesOn id n r goes s t
    → (JobAt s id (n + 1) → RunEnd id rs (n + 1) rest)
    → RunEnd id (r ∷ rs) n (if goes then (rest.0, t ++ rest.1) else (s, t))
run_step id n r rs true s t rest (e, h) ih =
    let (status, m, runs, ended) = ih h in
    (
      status,
      suc m,
      inl (rest.1, m, ap (λ (x : List Effect). x ++ rest.1) e, refl, runs),
      subst (λ (k : ℕ). EndedAs rest.0 id status k) (omega arith) ended,
    )
run_step id n r rs false s t rest (status, stopped, ended) ih =
    (status, 0, inr (stopped, refl), subst (λ (k : ℕ). EndedAs s id status k) (omega arith) ended)

run_rounds-RunEnd :
    (rs : List Round) (s : Store) (id : Text) (n total last : ℕ)
    → JobAt s id n
    → RunEnd id rs n (run_rounds s id n total last rs)
unfolding run_rounds
run_rounds-RunEnd [] s id n total last h = (
  done,
  0,
  (refl, refl, refl),
  subst (λ (k : ℕ). EndedAs (finish_benchy_job s id done (some (pos 0)) none last) id done k)
      (omega arith) (finish-EndedAs s id done (some (pos 0)) none last n h),
)
run_rounds-RunEnd (r ∷ rs) s id n total last h =
    let e = run_round s id n total r in
    run_step id n r rs e.goes_on e.store e.effects (run_rounds e.store id (n + 1) total last rs)
      (run_round-RoundOk id n total r s h)
      (λ g. run_rounds-RunEnd rs e.store id (n + 1) total last g)

waited-JobAt :
    (s : Store) (id : Text) (w : Waiting) (n : ℕ)
    → JobAt s id n
    → JobAt (wait_for_scheduled_benchy_start s id w).0 id n
unfolding wait_for_scheduled_benchy_start
waited-JobAt s id no_schedule n h = status-JobAt s id running n h
waited-JobAt s id (reached note) n h =
    status-JobAt (say s id note) id running n (append-JobAt s id out note n h)
waited-JobAt s id (waits note) n h =
    let a = status-JobAt (say s id note) id scheduled n (append-JobAt s id out note n h) in
    let b = set_benchy_runtime_status (say s id note) id scheduled in
    append-JobAt (set_benchy_runtime_status b id running) id out reached_message n
      (status-JobAt b id running n a)
waited-JobAt s id (wait_canceled note) n h =
    status-JobAt (say s id note) id scheduled n (append-JobAt s id out note n h)

if_started-RunEnd :
    (id : Text) (first last : ℕ) (r : Round) (rs : List Round) (s : Store) (go : Bool)
    → JobAt s id 0
    → RunEnd id (r ∷ rs) 0 (if_started id first last (r ∷ rs) (s, go))
if_started-RunEnd id first last r rs s true h =
    run_rounds-RunEnd (r ∷ rs) s id 0 (length (r ∷ rs)) last h
if_started-RunEnd id first last r rs s false h = (
  canceled,
  0,
  inr (inl (refl, inl refl), refl),
  finish-EndedAs s id canceled none none first 0 h,
)

-- A queue of models whose job is there, with none completed, when nobody else changes the jobs. Every
-- model that was completed was loaded, run and stopped before the next one was loaded; the first that
-- was not completed ends the run, and if it was run, or could not be loaded, it was stopped. The job
-- is done exactly if all models were completed, else canceled or failed. It has the time of its end
-- and the number of the completed models, unless it was pruned, and cannot be canceled any more.
pub run_benchy_queue_job-RunEnd :
    (s : Store) (id : Text) (waiting : Waiting) (first last : ℕ) (r : Round) (rs : List Round)
    → JobAt s id 0
    → RunEnd id (r ∷ rs) 0 (run_benchy_queue_job s id waiting first last (r ∷ rs))
unfolding run_benchy_queue_job
run_benchy_queue_job-RunEnd s id waiting first last r rs h =
    let w = wait_for_scheduled_benchy_start s id waiting in
    if_started-RunEnd id first last r rs w.0 w.1 (waited-JobAt s id waiting 0 h)
