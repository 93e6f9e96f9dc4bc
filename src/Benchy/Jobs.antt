-- ===== src/Benchy/Jobs.antt =====
-- proxy/benchy.go: the jobs that the manager keeps, and the steps on them under `benchyMu`.
use llama_swap.Base.{
  ℕ, ◌-◌, List, [], ◌∷◌, ◌++◌, Option, none, some, Bool, true, false, if◌then◌else◌, ltb, leb, ◌==◌,
  length, drop,
}
use llama_swap.Base.Integer.{ℤ}
use llama_swap.Base.Text.{Text, text_eq, contains}
use llama_swap.Base.Dict.{Dict, lookup, insert, delete}

pub data JobStatus : Type 0 where
  scheduled running done failed canceled : JobStatus

abbrev pub is_running : JobStatus → Bool
is_running running = true
is_running _ = false

-- `benchyRunOptions`; the time to start is kept in the job.
pub record RunOptions : Type 0 where
  pub pp : List ℤ
  pub tg : List ℤ
  pub depth : List ℤ
  pub concurrency : List ℤ
  pub runs : ℤ
  pub latency_mode : Text
  pub no_cache : Bool
  pub no_warmup : Bool
  pub adapt_prompt : Option Bool
  pub enable_prefix_caching : Bool
  pub enable_intelligence : Bool
  pub intelligence_plugins : List Text
  pub allow_code_exec : Bool
  pub dataset_cache_dir : Text
  pub output_dir : Text
  pub max_concurrent : Option ℤ
  pub trust_remote_code : Bool

-- `BenchyJob`. Times are numbers.
pub record Job : Type 0 where
  pub model : Text
  pub queue_models : List Text
  pub current_index : ℕ
  pub current_model : Text
  pub completed_count : ℕ
  pub tokenizer : Text
  pub scheduled_at : Option ℕ
  pub base_url : Text
  pub options : RunOptions
  pub status : JobStatus
  pub started_at : ℕ
  pub finished_at : Option ℕ
  pub exit_code : Option ℤ
  pub stdout : Text
  pub stderr : Text
  pub error : Text

-- `benchyJobs`, the ids in `benchyCancels`, and those whose context has been canceled.
pub record Store : Type 0 where
  pub jobs : Dict Job
  pub cancels : List Text
  pub canceled : List Text

abbrev pub without : Text → List Text → List Text
without id [] = []
without id (x ∷ xs) = let rest = without id xs in if text_eq x id then rest else x ∷ rest

abbrev pub on_job : Store → Text → (Job → Job) → Option Job → Store
on_job s id f none = s
on_job s id f (some j) = record s { jobs = insert id (f j) s.jobs }

-- A step that changes a job, or nothing where there is none.
unfoldable pub change : Store → Text → (Job → Job) → Store
change s id f = on_job s id f (lookup id s.jobs)

-- `appendCapped`.
unfoldable pub append_capped : Text → Text → ℕ → Text
append_capped prev chunk max =
    if text_eq chunk []
    then prev
    else if max == 0
    then prev ++ chunk
    else if leb max (length chunk)
    then drop (length chunk - max) chunk
    else (let combined = prev ++ chunk in
        if ltb max (length combined) then drop (length combined - max) combined else combined)

abbrev pub max_output_bytes : ℕ
max_output_bytes = 1048576

abbrev pub max_jobs : ℕ
max_jobs = 25

pub data Stream : Type 0 where
  out err : Stream

abbrev pub append_to : Stream → Text → Job → Job
append_to err chunk j = record j { stderr = append_capped j.stderr chunk max_output_bytes }
append_to out chunk j = record j { stdout = append_capped j.stdout chunk max_output_bytes }

unfoldable pub append_benchy_output : Store → Text → Stream → Text → Store
append_benchy_output s id stream chunk =
    if text_eq chunk [] then s else change s id (append_to stream chunk)

unfoldable pub append_all : Store → Text → List (Stream × Text) → Store
append_all s id [] = s
append_all s id ((stream, chunk) ∷ chunks) =
    append_all (append_benchy_output s id stream chunk) id chunks

unfoldable pub set_benchy_runtime_status : Store → Text → JobStatus → Store
set_benchy_runtime_status s id status = change s id (λ j. record j { status = status })

-- The indices that the code passes are not negative.
unfoldable pub set_benchy_queue_progress : Store → Text → ℕ → Text → ℕ → Store
set_benchy_queue_progress s id index model completed =
    change s id
      (λ j. record j { current_index = index; current_model = model; completed_count = completed })

-- The jobs that `pruneBenchyJobsLocked` may remove, with the times at which they ended.
abbrev pub end_of : Job → Option ℕ
end_of j = if is_running j.status then none else j.finished_at

abbrev pub put_finished : Text → Option ℕ → List (ℕ × Text) → List (ℕ × Text)
put_finished id none rest = rest
put_finished id (some t) rest = (t, id) ∷ rest

unfoldable pub finished_jobs : Dict Job → List (ℕ × Text)
finished_jobs [] = []
finished_jobs ((id, j) ∷ jobs) = put_finished id (end_of j) (finished_jobs jobs)

-- `sort.Slice` by time. The order of equal times, which Go leaves open, is that of the map here.
unfoldable pub insert_by_time : ℕ × Text → List (ℕ × Text) → List (ℕ × Text)
insert_by_time (t, id) [] = (t, id) ∷ []
insert_by_time (t, id) ((u, other) ∷ fs) =
    let rest = insert_by_time (t, id) fs in
    if leb t u then (t, id) ∷ (u, other) ∷ fs else (u, other) ∷ rest

unfoldable pub sort_by_time : List (ℕ × Text) → List (ℕ × Text)
unfolding insert_by_time
sort_by_time [] = []
sort_by_time (f ∷ fs) = insert_by_time f (sort_by_time fs)

-- The loop that removes the oldest until there are few enough.
unfoldable pub remove_oldest : List (ℕ × Text) → Dict Job → List Text → Dict Job × List Text
remove_oldest [] jobs cancels = (jobs, cancels)
remove_oldest ((t, id) ∷ fs) jobs cancels =
    let rest = remove_oldest fs (delete id jobs) (without id cancels) in
    if ltb max_jobs (length jobs) then rest else (jobs, cancels)

unfoldable pub prune_benchy_jobs_locked : Store → Store
unfolding finished_jobs sort_by_time remove_oldest
prune_benchy_jobs_locked s =
    let left = remove_oldest (sort_by_time (finished_jobs s.jobs)) s.jobs s.cancels in
    if leb (length s.jobs) max_jobs then s else record s { jobs = left.0; cancels = left.1 }

-- `finishBenchyJob`; `none` is an error that is nil.
abbrev pub error_or : Text → Option Text → Text
error_or old none = old
error_or old (some e) = e

abbrev pub finished : JobStatus → Option ℤ → Option Text → ℕ → Job → Job
finished status code e now j = record j {
  status = status;
  finished_at = some now;
  exit_code = code;
  error = error_or j.error e;
}

abbrev pub finish_found : Store → Text → JobStatus → Option ℤ → Option Text → ℕ → Option Job → Store
finish_found s id status code e now none = s
finish_found s id status code e now (some j) = prune_benchy_jobs_locked (record s {
  jobs = insert id (finished status code e now j) s.jobs;
  cancels = without id s.cancels;
  canceled = if contains s.cancels id then id ∷ s.canceled else s.canceled;
})

unfoldable pub finish_benchy_job : Store → Text → JobStatus → Option ℤ → Option Text → ℕ → Store
unfolding prune_benchy_jobs_locked
finish_benchy_job s id status code e now = finish_found s id status code e now (lookup id s.jobs)

-- `apiGetBenchyJob` and `apiCancelBenchyJob`, after the trimming of the id.
pub data JobReply : Type 0 where
  missing_id not_found not_cancelable canceling : JobReply
  found : Job → JobReply

abbrev pub job_or_not : Option Job → JobReply
job_or_not none = not_found
job_or_not (some j) = found j

unfoldable pub api_get_benchy_job : Store → Text → JobReply
api_get_benchy_job s id = if text_eq id [] then missing_id else job_or_not (lookup id s.jobs)

abbrev pub cancel_found : Store → Text → Option Job → JobReply × Store
cancel_found s id none = (not_found, s)
cancel_found s id (some j) =
    if contains s.cancels id
    then (canceling, record s { canceled = id ∷ s.canceled })
    else (not_cancelable, s)

unfoldable pub api_cancel_benchy_job : Store → Text → JobReply × Store
api_cancel_benchy_job s id =
    if text_eq id [] then (missing_id, s) else cancel_found s id (lookup id s.jobs)
