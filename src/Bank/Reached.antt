-- ===== src/Bank/Reached.antt =====
-- The steps of the queue, and what holds in every state that they reach.
use egeism.Base.{
  ℕ, suc, ◌+◌, ◌-◌, ◌≤◌, ◌≡◌, refl, inl, inr, ◌==◌, Bool, true, false, not, ◌&&◌, ◌||◌, Option,
  none, some, List, [], ◌∷◌, filter, find, any, count, All, Option-cases, Bool-cases, arith,
  if◌then◌else◌,
}
use egeism.Base.Text.{Text}
use egeism.Domain.Learning.{SubjectCode}
use egeism.Bank.Queue.{
  Job, Kind, SyncResult, is_queued, is_running, pending, subject_key, same_work, enqueue, added,
  reap, reap_job, claim, claim_queued, claimable, start_job, replace_oldest, finish, finish_job,
  cancel, cancel_job, prune, recent_job, new_job, is_old,
}
use egeism.Bank.Limits.{
  Limits, map-Limits, filter-Limits, reap-Eases, finish-Eases, cancel-Eases, pending_job,
  running_job, running_of, pending_work, Tries, find-none,
}

-- One row is replaced, one that has the property.
replace_oldest-count :
    (p : Job → Bool) (f : Job → Job) (q : Job → Bool) (jobs rest : List Job) (k : Job)
    → replace_oldest p f jobs ≡ some (k, rest)
    → (j : Job) × (p j ≡ true)
      × (k ≡ f j)
      × (count q rest + (if q j then 1 else 0) ≡ count q jobs + (if q (f j) then 1 else 0))
unfolding replace_oldest
replace_oldest-count p f q [] rest k h = cc
replace_oldest-count p f q (x ∷ xs) rest k h = elim (Option-cases (replace_oldest p f xs)) [
  | inl e ↦ (x, ground arith, ground arith, ground arith)
  | inr ((k', ys), e) ↦
      let (j, pj, is, eq) = replace_oldest-count p f q xs ys k' e in
      (j, pj, ground arith, ground arith)
]

replace_oldest-All {κ} :
    (P : Job → Type κ) (p : Job → Bool) (f : Job → Job) (jobs rest : List Job) (k : Job)
    → ((j : Job) → p j ≡ true → P j → P (f j))
    → replace_oldest p f jobs ≡ some (k, rest)
    → All P jobs
    → All P rest
unfolding replace_oldest
replace_oldest-All P p f [] rest k s h a = cc
replace_oldest-All P p f (x ∷ xs) rest k s h a = elim (Option-cases (replace_oldest p f xs)) [
  | inl e ↦ elim (Bool-cases (p x)) [
    | inl px ↦ let r : rest ≡ f x ∷ xs = ground arith in rw r (s x px a.0, a.1)
    | inr px ↦ absurd (ground arith)
  ]
  | inr ((k', ys), e) ↦
      let r : rest ≡ x ∷ ys = ground arith in rw r (a.0, replace_oldest-All P p f xs ys k' s e a.1)
]

any-count : (p : Job → Bool) (jobs : List Job) → any p jobs ≡ false → count p jobs ≡ 0
any-count p [] h = refl
any-count p (j ∷ js) h = ground (arith, any-count p js)

count-imp :
    (p q : Job → Bool) (jobs : List Job)
    → ((j : Job) → p j ≡ true → q j ≡ true)
    → count p jobs ≤ count q jobs
count-imp p q [] h = omega arith
count-imp p q (j ∷ js) h = ground (arith, h j, count-imp p q js h)

claim_queued-Limits :
    (now : ℕ) (jobs rest : List Job) (k : Job)
    → claim_queued now jobs ≡ some (k, rest)
    → Limits jobs
    → Limits rest
unfolding claim_queued start_job claimable
claim_queued-Limits now jobs rest k h l =
    let counted =
      λ (q : Job → Bool). replace_oldest-count (claimable jobs) (start_job now) q jobs rest k h in
    record {
      pending_limit = (let (j, c, is, e) = counted pending_job in ground (arith, l.pending_limit));
      running_limit = (let (j, c, is, e) = counted running_job in ground (arith, l.running_limit));
      subject_limit = λ s.
          let (j, c, is, e) = counted (running_of s) in
          let before =
            any-count (λ r. is_running r.state && (subject_key r.subject == subject_key j.subject))
              jobs (ground arith) in
          let same =
            count-imp (running_of s)
              (λ r. is_running r.state && (subject_key r.subject == subject_key j.subject)) jobs in
          elim (Bool-cases (subject_key j.subject == subject_key s)) [
            | inl t ↦ ground (arith, same (λ r w. ground arith), l.subject_limit s)
            | inr t ↦ ground (arith, l.subject_limit s)
          ];
      work_limit = λ s n a w.
          let (j, c, is, e) = counted (pending_work s n a w) in
          ground (arith, l.work_limit s n a w);
      tries =
          replace_oldest-All Tries (claimable jobs) (start_job now) jobs rest k
            (λ j c t. ground arith) h l.tries;
    }

-- No job for the work is pending if the queue found none.
none-pending :
    (s : SubjectCode) (n : ℕ) (a : Bool) (k : Kind) (since : ℕ) (jobs : List Job)
    → recent_job s n a k since jobs ≡ none
    → count (pending_work s n a k) jobs ≡ 0
unfolding recent_job
none-pending s n a k since jobs h =
    let same = filter (same_work s n a k) jobs in
    elim (Option-cases (find pending_job same)) [
      | inl e ↦ find-none pending_job (same_work s n a k) jobs e
      | inr (j, e) ↦ absurd (ground arith)
    ]

same-work-pending :
    (s s' : SubjectCode) (n n' : ℕ) (a a' : Bool) (k k' : Kind) (j : Job) (jobs : List Job)
    → same_work s n a k j ≡ true
    → same_work s' n' a' k' j ≡ true
    → count (pending_work s' n' a' k') jobs ≤ count (pending_work s n a k) jobs
same-work-pending s s' n n' a a' k k' j jobs h h' =
    count-imp (pending_work s' n' a' k') (pending_work s n a k) jobs (λ r w. ground arith)

enqueue-Limits :
    (id now : ℕ) (s : SubjectCode) (n limit : ℕ) (a : Bool) (cooldown : ℕ) (k : Kind)
    (jobs rest : List Job) (job : Job)
    → enqueue id now s n limit a cooldown k jobs ≡ added job rest
    → Limits jobs
    → Limits rest
unfolding enqueue
enqueue-Limits id now s n limit a cooldown k jobs rest job h l =
    elim (Option-cases (recent_job s n a k (now - cooldown) jobs)) [
      | inr (j, e) ↦ absurd (ground arith)
      | inl e ↦
          let new = new_job id s n limit a k now in
          let room : count pending_job jobs ≤ 31 = ground arith in
          let is : rest ≡ new ∷ jobs = ground arith in
          let clear = none-pending s n a k (now - cooldown) jobs e in
          let own : same_work s n a k new ≡ true = ground arith in
          rw is (record {
            pending_limit = omega arith;
            running_limit = l.running_limit;
            subject_limit = l.subject_limit;
            work_limit = λ s' n' a' k'. elim (Bool-cases (same_work s' n' a' k' new)) [
              | inl t ↦ ground (arith, same-work-pending s s' n n' a a' k k' new jobs own t)
              | inr t ↦ ground (arith, l.work_limit s' n' a' k')
            ];
            tries = (omega arith, l.tries);
          })
    ]

claim-Limits : (now : ℕ) (jobs : List Job) → Limits jobs → Limits (claim now jobs).1
unfolding claim reap
claim-Limits now jobs l =
    let reaped = map-Limits (reap_job now) jobs (reap-Eases now) l in
    elim (Option-cases (claim_queued now (reap now jobs))) [
      | inl e ↦ rw (e, claim) reaped
      | inr ((k, rest), e) ↦ rw (e, claim) (claim_queued-Limits now (reap now jobs) rest k e reaped)
    ]

-- The operations of the workers, the teachers and the students, at any time and in any order.
pub data Step : List Job → List Job → Type 0 where
  enqueues :
      (id now : ℕ) (s : SubjectCode) (n limit : ℕ) (a : Bool) (cooldown : ℕ) (k : Kind)
      (jobs rest : List Job) (job : Job)
      → enqueue id now s n limit a cooldown k jobs ≡ added job rest
      → Step jobs rest
  claims : (now : ℕ) (jobs : List Job) → Step jobs (claim now jobs).1
  finishes :
      (now : ℕ) (job : Job) (r : Option SyncResult) (m : Text) (jobs : List Job)
      → Step jobs (finish now job r m jobs)
  cancels : (now id : ℕ) (jobs : List Job) → Step jobs (cancel now id jobs)
  prunes : (now : ℕ) (jobs : List Job) → Step jobs (prune now jobs)

pub data Reachable : List Job → Type 0 where
  start : Reachable []
  next : (jobs rest : List Job) → Reachable jobs → Step jobs rest → Reachable rest

Step-Limits : (jobs rest : List Job) → Step jobs rest → Limits jobs → Limits rest
unfolding finish cancel prune
Step-Limits _ _ (enqueues id now s n limit a c k jobs rest job h) l =
    enqueue-Limits id now s n limit a c k jobs rest job h l
Step-Limits _ _ (claims now jobs) l = claim-Limits now jobs l
Step-Limits _ _ (finishes now job r m jobs) l =
    map-Limits (finish_job now job.id job.attempts r m) jobs
      (finish-Eases now job.id job.attempts r m) l
Step-Limits _ _ (cancels now id jobs) l =
    map-Limits (cancel_job now id) jobs (cancel-Eases now id) l
Step-Limits _ _ (prunes now jobs) l =
    filter-Limits (λ j. pending j.state || not (is_old now j.finished_at)) jobs l

-- In every state of the queue that its operations reach from the empty one, at most 32 jobs are
-- pending and at most one for the same work, at most two run and at most one of a subject, and no
-- job was started more than three times.
pub Reachable-Limits : (jobs : List Job) → Reachable jobs → Limits jobs
Reachable-Limits _ start = record {
  pending_limit = omega arith;
  running_limit = omega arith;
  subject_limit = λ s. omega arith;
  work_limit = λ s n a k. omega arith;
  tries = tt;
}
Reachable-Limits _ (next jobs rest r s) = Step-Limits jobs rest s (Reachable-Limits jobs r)

-- A job that is claimed was queued, fewer than two ran and none of its subject; it now runs, has one
-- more attempt and a lease of six minutes, and one more job runs than after the reaping.
pub claim-starts :
    (now : ℕ) (jobs rest : List Job) (k : Job)
    → claim now jobs ≡ (some k, rest)
    → (j : Job) × (k ≡ start_job now j)
      × (is_queued j.state ≡ true)
      × (count running_job (reap now jobs) ≤ 1)
      × (count (running_of j.subject) (reap now jobs) ≡ 0)
      × (count running_job rest ≡ suc (count running_job (reap now jobs)))
unfolding claim claim_queued start_job claimable
claim-starts now jobs rest k h = elim (Option-cases (claim_queued now (reap now jobs))) [
  | inl e ↦ absurd (ground arith)
  | inr ((k', rest'), e) ↦
      let (j, c, is, counted) =
        replace_oldest-count (claimable (reap now jobs)) (start_job now) running_job (reap now jobs)
          rest' k' e in
      (
        j,
        ground arith,
        ground arith,
        ground arith,
        any-count (running_of j.subject) (reap now jobs) (ground arith),
        ground arith,
      )
]
