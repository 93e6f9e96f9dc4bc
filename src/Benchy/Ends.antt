-- ===== src/Benchy/Ends.antt =====
-- proxy/benchy.go: how a queue of benchmarks ends.
use llama_swap.Base.{
  ℕ, suc, ◌≡◌, refl, sym, subst, ◌∙◌, ◌⊎◌, inl, inr, List, [], ◌∷◌, ◌++◌, Option, none, some, false,
  if◌then◌else◌, leb, length, ltb, if_holds,
}
use llama_swap.Base.Integer.{ℤ}
use llama_swap.Base.Text.{Text, text_eq, contains}
use llama_swap.Base.Dict.{Dict, lookup, insert, lookup-insert_self, delete}
use llama_swap.Benchy.Jobs.{
  JobStatus, done, failed, canceled, Job, Store, Stream, out, err, without, change, append_to,
  append_benchy_output, append_all, set_benchy_runtime_status, set_benchy_queue_progress,
  sort_by_time, finished_jobs, remove_oldest, max_jobs, prune_benchy_jobs_locked, finished,
  finish_benchy_job,
}
use llama_swap.Benchy.Queue.{Round, Effect, loads, stops, full}
use llama_swap.Benchy.Pruned.{contains-without, contains-without_self, remove_oldest-Kept}

-- The effects of a round that ends the run, and the status that it gives the job.
abbrev pub Stopped : Text → JobStatus → List Effect → Type 0
Stopped model status t =
    ((status ≡ canceled) × ((t ≡ []) ⊎ ((t ≡ loads model ∷ []) ⊎ (t ≡ full model))))
    ⊎ ((status ≡ failed) × ((t ≡ loads model ∷ stops model ∷ []) ⊎ (t ≡ full model)))

-- The effects of a run over some models, its status, and how many models it completed: each of
-- those was loaded, run and stopped before the next, and one that ended the run may follow.
abbrev pub Runs : List Round → JobStatus → List Effect → ℕ → Type 0
Runs [] status t n = (status ≡ done) × (t ≡ []) × (n ≡ 0)
Runs (r ∷ rs) status t n =
    ((u : List Effect) × (m : ℕ) × (t ≡ full r.real ++ u) × (n ≡ suc m) × Runs rs status u m)
    ⊎ (Stopped r.real status t × (n ≡ 0))

-- The job is there and has completed some models.
abbrev pub JobAt : Store → Text → ℕ → Type 0
JobAt s id n = (j : Job) × (lookup id s.jobs ≡ some j) × (j.completed_count ≡ n)

-- The job has ended with a status, and cannot be canceled; pruning may have removed it.
abbrev pub IfEnded : JobStatus → ℕ → Option Job → Type 0
IfEnded status n none = Unit
IfEnded status n (some j) =
    (j.status ≡ status) × ((t : ℕ) × (j.finished_at ≡ some t)) × (j.completed_count ≡ n)

abbrev pub EndedAs : Store → Text → JobStatus → ℕ → Type 0
EndedAs s id status n = (contains s.cancels id ≡ false) × IfEnded status n (lookup id s.jobs)

pub change_lem :
    (s : Store) (id : Text) (f : Job → Job) {j : Job}
    → lookup id s.jobs ≡ some j
    → lookup id (change s id f).jobs ≡ some (f j)
unfolding change
change_lem s id f {j} e = rw e (lookup-insert_self id (f j) s.jobs)

change-JobAt :
    (s : Store) (id : Text) (f : Job → Job) (n m : ℕ)
    → ((j : Job) → j.completed_count ≡ n → (f j).completed_count ≡ m)
    → JobAt s id n
    → JobAt (change s id f) id m
change-JobAt s id f n m h (j, e, c) = (f j, change_lem s id f e, h j c)

append_to-count :
    (stream : Stream) (chunk : Text) (j : Job)
    → (append_to stream chunk j).completed_count ≡ j.completed_count
append_to-count out chunk j = refl
append_to-count err chunk j = refl

pub append-JobAt :
    (s : Store) (id : Text) (stream : Stream) (chunk : Text) (n : ℕ)
    → JobAt s id n
    → JobAt (append_benchy_output s id stream chunk) id n
unfolding append_benchy_output
append-JobAt s id stream chunk n h =
    if_holds (λ (x : Store). JobAt x id n) (text_eq chunk []) h
      (change-JobAt s id (append_to stream chunk) n n (λ j c. append_to-count stream chunk j ∙ c) h)

pub append_all-JobAt :
    (chunks : List (Stream × Text)) (s : Store) (id : Text) (n : ℕ)
    → JobAt s id n
    → JobAt (append_all s id chunks) id n
unfolding append_all
append_all-JobAt [] s id n h = h
append_all-JobAt ((stream, chunk) ∷ chunks) s id n h =
    append_all-JobAt chunks (append_benchy_output s id stream chunk) id n
      (append-JobAt s id stream chunk n h)

pub status-JobAt :
    (s : Store) (id : Text) (status : JobStatus) (n : ℕ)
    → JobAt s id n
    → JobAt (set_benchy_runtime_status s id status) id n
unfolding set_benchy_runtime_status
status-JobAt s id status n h =
    change-JobAt s id (λ j. record j { status = status }) n n (λ j c. c) h

pub progress-JobAt :
    (s : Store) (id : Text) (index : ℕ) (model : Text) (n : ℕ)
    → JobAt s id n
    → JobAt (set_benchy_queue_progress s id index model index) id index
unfolding set_benchy_queue_progress
progress-JobAt s id index model n h =
    change-JobAt s id
      (λ j. record j { current_index = index; current_model = model; completed_count = index }) n
      index (λ j c. refl) h

-- What pruning leaves of one job and of the cancel functions.
cancels_left :
    (fs : List (ℕ × Text)) (jobs : Dict Job) (cancels : List Text) (id : Text)
    → contains cancels id ≡ false
    → contains (remove_oldest fs jobs cancels).1 id ≡ false
unfolding remove_oldest
cancels_left [] jobs cancels id h = h
cancels_left ((t, k) ∷ fs) jobs cancels id h =
    if_holds (λ (x : Dict Job × List Text). contains x.1 id ≡ false) (ltb max_jobs (length jobs))
      (cancels_left fs (delete k jobs) (without k cancels) id (contains-without k id cancels h)) h

IfEnded-pruned :
    (status : JobStatus) (n : ℕ) (before after : Option Job) {listed : Type 0}
    → (after ≡ before) ⊎ ((after ≡ none) × listed)
    → IfEnded status n before
    → IfEnded status n after
IfEnded-pruned status n before after (inl e) h = subst (IfEnded status n) (sym e) h
IfEnded-pruned status n before after (inr (e, _)) h = subst (IfEnded status n) (sym e) tt

prune-EndedAs :
    (s : Store) (id : Text) (status : JobStatus) (n : ℕ)
    → EndedAs s id status n
    → EndedAs (prune_benchy_jobs_locked s) id status n
unfolding prune_benchy_jobs_locked
prune-EndedAs s id status n (c, h) =
    let fs = sort_by_time (finished_jobs s.jobs) in
    if_holds (λ (x : Store). EndedAs x id status n) (leb (length s.jobs) max_jobs) (c, h)
      (
        cancels_left fs s.jobs s.cancels id c,
        IfEnded-pruned status n (lookup id s.jobs) (lookup id (remove_oldest fs s.jobs s.cancels).0)
            ((remove_oldest-Kept fs s.jobs s.cancels).entry id) h,
      )

pub finish-EndedAs :
    (s : Store) (id : Text) (status : JobStatus) (code : Option ℤ) (e : Option Text) (now n : ℕ)
    → JobAt s id n
    → EndedAs (finish_benchy_job s id status code e now) id status n
unfolding finish_benchy_job
finish-EndedAs s id status code e now n (j, at, c) = rw at (
    prune-EndedAs
      (record s {
        jobs = insert id (finished status code e now j) s.jobs;
        cancels = without id s.cancels;
        canceled = if contains s.cancels id then id ∷ s.canceled else s.canceled;
      })
      id status n
      (
        contains-without_self id s.cancels,
        subst (IfEnded status n) (sym (lookup-insert_self id (finished status code e now j) s.jobs))
            (refl, (now, refl), c),
      ))
