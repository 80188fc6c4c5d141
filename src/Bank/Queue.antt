-- ===== src/Bank/Queue.antt =====
-- internal/store/repo_bank_sync.go, with the queries of internal/store/queries/bank_sync.sql. The
-- table is the list of its rows, the newest first, so that created_at falls along it. Each operation
-- is one transaction, which the advisory lock and the row locks of the source keep apart from the
-- others; `now` is the time of the transaction, in seconds. Failures of the database are left out.
use egeism.Base.{
  ℕ, suc, ◌+◌, ◌-◌, ◌==◌, ltb, leb, Bool, true, false, not, ◌&&◌, ◌||◌, Option, none, some, List,
  [], ◌∷◌, map, filter, find, any, count, if◌then◌else◌,
}
use egeism.Base.Text.{Text, codes, text_eq}
use egeism.Domain.Learning.{SubjectCode, rus, math, inf, soc}

pub data State : Type 0 where
  queued running succeeded failed cancelled : State

pub data Kind : Type 0 where
  fetch repair : Kind

-- internal/domain/bank_sync.go.
pub record SyncResult : Type 0 where
  pub fetched : ℕ
  pub inserted : ℕ
  pub skipped : ℕ
  pub invalid : ℕ
  pub promoted : ℕ
  pub held : ℕ
  pub source : Text
  pub updated : ℕ
  pub scanned : ℕ

-- A row, which is BankSyncJob and the lease.
pub record Job : Type 0 where
  pub id : ℕ
  pub subject : SubjectCode
  pub number : ℕ
  pub limit : ℕ
  pub active : Bool
  pub kind : Kind
  pub state : State
  pub created_at : ℕ
  pub started_at : Option ℕ
  pub finished_at : Option ℕ
  pub lease_until : Option ℕ
  pub result : Option SyncResult
  pub error : Text
  pub attempts : ℕ

abbrev pub is_queued : State → Bool
is_queued queued = true
is_queued _ = false

abbrev pub is_running : State → Bool
is_running running = true
is_running _ = false

-- Pending.
abbrev pub pending : State → Bool
pending queued = true
pending running = true
pending _ = false

abbrev pub subject_key : SubjectCode → ℕ
subject_key rus = 0
subject_key math = 1
subject_key inf = 2
subject_key soc = 3

abbrev pub kind_key : Kind → ℕ
kind_key fetch = 0
kind_key repair = 1

abbrev pub flag : Bool → ℕ
flag true = 1
flag false = 0

-- Is the job for the same work?
abbrev pub same_work : SubjectCode → ℕ → Bool → Kind → Job → Bool
same_work subject number active kind j =
    (subject_key j.subject == subject_key subject)
    && ((j.number == number)
        && ((flag j.active == flag active) && (kind_key j.kind == kind_key kind)))

-- RecentBankSyncJob: a pending job first, else the newest one created since then.
unfoldable pub recent_job : SubjectCode → ℕ → Bool → Kind → ℕ → List Job → Option Job
recent_job subject number active kind since jobs =
    let same = filter (same_work subject number active kind) jobs in
    elim (find (λ j. pending j.state) same) [
      | some j ↦ some j
      | none ↦ find (λ j. leb since j.created_at) same
    ]

abbrev pub new_job : ℕ → SubjectCode → ℕ → ℕ → Bool → Kind → ℕ → Job
new_job id subject number limit active kind now = record {
  id = id;
  subject = subject;
  number = number;
  limit = limit;
  active = active;
  kind = kind;
  state = queued;
  created_at = now;
  started_at = none;
  finished_at = none;
  lease_until = none;
  result = none;
  error = [];
  attempts = 0;
}

-- What the queue answers a request for an update: the job that is there, a new one, or that it is
-- full.
pub data Enqueued : Type 0 where
  found : Job → Enqueued
  added : Job → List Job → Enqueued
  full : Enqueued

-- EnqueueBankSync; `id` is the id that the database gives.
unfoldable pub enqueue : ℕ → ℕ → SubjectCode → ℕ → ℕ → Bool → ℕ → Kind → List Job → Enqueued
enqueue id now subject number limit active cooldown kind jobs =
    let job = new_job id subject number limit active kind now in
    elim (recent_job subject number active kind (now - cooldown) jobs) [
      | some j ↦ found j
      | none ↦ if leb 32 (count (λ j. pending j.state) jobs) then full else added job (job ∷ jobs)
    ]

-- ReapBankSyncJobs, on one row.
abbrev pub interrupted : Text
interrupted = codes "Обновление прервано перезапуском сервиса. Повторите позже."

abbrev pub is_expired : ℕ → Option ℕ → Bool
is_expired now none = false
is_expired now (some t) = ltb t now

unfoldable pub reap_job : ℕ → Job → Job
reap_job now j =
    if is_running j.state && is_expired now j.lease_until
    then record j {
      state = (if ltb j.attempts 3 then queued else failed);
      started_at = none;
      lease_until = none;
      finished_at = (if leb 3 j.attempts then some now else none);
      error = (if leb 3 j.attempts then interrupted else []);
    }
    else j

unfoldable pub reap : ℕ → List Job → List Job
reap now jobs = map (reap_job now) jobs

-- A queued job that may run: two run at most, and one of a subject.
unfoldable pub claimable : List Job → Job → Bool
claimable jobs j =
    is_queued j.state
    && (ltb (count (λ r. is_running r.state) jobs) 2
        && not (
            any (λ r. is_running r.state && (subject_key r.subject == subject_key j.subject)) jobs))

unfoldable pub start_job : ℕ → Job → Job
start_job now j = record j {
  state = running;
  started_at = some now;
  attempts = suc j.attempts;
  lease_until = some (now + 360);
}

-- The oldest row with the property is replaced, and returned with the rows after that.
unfoldable pub replace_oldest : (Job → Bool) → (Job → Job) → List Job → Option (Job × List Job)
replace_oldest p f [] = none
replace_oldest p f (j ∷ js) = elim (replace_oldest p f js) [
  | some (k, ks) ↦ some (k, j ∷ ks)
  | none ↦ if p j then some (f j, f j ∷ js) else none
]

-- ClaimBankSyncJob.
unfoldable pub claim_queued : ℕ → List Job → Option (Job × List Job)
claim_queued now jobs = replace_oldest (claimable jobs) (start_job now) jobs

-- ClaimBankSync: the rows after it, and the job, if there is one to run.
unfoldable pub claim : ℕ → List Job → Option Job × List Job
claim now jobs =
    let reaped = reap now jobs in
    elim (claim_queued now reaped) [ some (j, rest) ↦ (some j, rest) | none ↦ (none, reaped) ]

-- FinishBankSync, by the worker that holds this job with this number of attempts.
unfoldable pub finish_job : ℕ → ℕ → ℕ → Option SyncResult → Text → Job → Job
finish_job now id attempts result message j =
    if (j.id == id) && ((j.attempts == attempts) && is_running j.state)
    then record j {
      state = (if text_eq message [] then succeeded else failed);
      result = result;
      error = message;
      finished_at = some now;
      lease_until = none;
    }
    else j

unfoldable pub finish : ℕ → Job → Option SyncResult → Text → List Job → List Job
finish now job result message jobs = map (finish_job now job.id job.attempts result message) jobs

-- CancelBankSync.
unfoldable pub cancel_job : ℕ → ℕ → Job → Job
cancel_job now id j =
    if j.id == id
    then record j {
      state = (if pending j.state then cancelled else j.state);
      finished_at = (if pending j.state then some now else j.finished_at);
      lease_until = none;
    }
    else j

unfoldable pub cancel : ℕ → ℕ → List Job → List Job
cancel now id jobs = map (cancel_job now id) jobs

-- PruneBankSync: a finished job is kept for seven days.
abbrev pub is_old : ℕ → Option ℕ → Bool
is_old now none = false
is_old now (some t) = ltb (t + 604800) now

unfoldable pub prune : ℕ → List Job → List Job
prune now jobs = filter (λ j. pending j.state || not (is_old now j.finished_at)) jobs
