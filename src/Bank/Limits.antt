-- ===== src/Bank/Limits.antt =====
-- The limits of the queue: internal/store/repo_bank_sync.go, whichever operations ran before.
use egeism.Base.{
  ℕ, ◌+◌, ◌≤◌, ◌≡◌, refl, inl, inr, ◌==◌, Bool, true, ◌&&◌, Option, none, List, [], ◌∷◌, map,
  filter, find, count, All, Bool-cases, arith, if◌then◌else◌,
}
use egeism.Base.Text.{Text}
use egeism.Domain.Learning.{SubjectCode}
use egeism.Bank.Queue.{
  Job, Kind, SyncResult, is_queued, is_running, pending, subject_key, same_work, reap_job,
  finish_job, cancel_job,
}

module _ {ℓ} {A : Type ℓ} where
  count-map-le :
      (p : A → Bool) (f : A → A)
      → ((x : A) → p (f x) ≡ true → p x ≡ true)
      → (xs : List A) → count p (map f xs) ≤ count p xs
  count-map-le p f h [] = omega arith
  count-map-le p f h (x ∷ xs) = ground (arith, h x, count-map-le p f h xs)

  count-filter-le : (p q : A → Bool) (xs : List A) → count p (filter q xs) ≤ count p xs
  count-filter-le p q [] = omega arith
  count-filter-le p q (x ∷ xs) = ground (arith, count-filter-le p q xs)

  All-map_self {κ} :
      (P : A → Type κ) (f : A → A)
      → ((x : A) → P x → P (f x))
      → (xs : List A) → All P xs
      → All P (map f xs)
  All-map_self P f h [] a = tt
  All-map_self P f h (x ∷ xs) a = (h x a.0, All-map_self P f h xs a.1)

  All-filter {κ} : (P : A → Type κ) (q : A → Bool) (xs : List A) → All P xs → All P (filter q xs)
  All-filter P q [] a = tt
  All-filter P q (x ∷ xs) a = elim (Bool-cases (q x)) [
    | inl e ↦ rw e (a.0, All-filter P q xs a.1)
    | inr e ↦ rw e (All-filter P q xs a.1)
  ]

  pub find-none :
      (p q : A → Bool) (xs : List A) → find p (filter q xs) ≡ none → count (λ x. p x && q x) xs ≡ 0
  find-none p q [] h = refl
  find-none p q (x ∷ xs) h = ground (arith, find-none p q xs)

abbrev pub pending_job : Job → Bool
pending_job j = pending j.state

abbrev pub running_job : Job → Bool
running_job j = is_running j.state

abbrev pub running_of : SubjectCode → Job → Bool
running_of s j = is_running j.state && (subject_key j.subject == subject_key s)

abbrev pub pending_work : SubjectCode → ℕ → Bool → Kind → Job → Bool
pending_work s n a k j = pending j.state && same_work s n a k j

abbrev pub Tries : Job → Type 0
Tries j = j.attempts + (if is_queued j.state then 1 else 0) ≤ 3

-- At most 32 jobs are pending, one for the same work; at most two run, one of a subject; no job is
-- tried more than three times.
pub record Limits (jobs : List Job) : Type 0 where
  pub pending_limit : count pending_job jobs ≤ 32
  pub running_limit : count running_job jobs ≤ 2
  pub subject_limit : (s : SubjectCode) → count (running_of s) jobs ≤ 1
  pub work_limit :
      (s : SubjectCode) (n : ℕ) (a : Bool) (k : Kind) → count (pending_work s n a k) jobs ≤ 1
  pub tries : All Tries jobs

-- A change of a row that starts nothing.
pub record Eases (f : Job → Job) : Type 0 where
  eases_pending : (j : Job) → pending_job (f j) ≡ true → pending_job j ≡ true
  eases_running : (j : Job) → running_job (f j) ≡ true → running_job j ≡ true
  eases_subject : (s : SubjectCode) (j : Job) → running_of s (f j) ≡ true → running_of s j ≡ true
  eases_work :
      (s : SubjectCode) (n : ℕ) (a : Bool) (k : Kind) (j : Job)
      → pending_work s n a k (f j) ≡ true
      → pending_work s n a k j ≡ true
  eases_tries : (j : Job) → Tries j → Tries (f j)

pub map-Limits : (f : Job → Job) (jobs : List Job) → Eases f → Limits jobs → Limits (map f jobs)
map-Limits f jobs e l = record {
  pending_limit = omega (arith, count-map-le pending_job f e.eases_pending jobs, l.pending_limit);
  running_limit = omega (arith, count-map-le running_job f e.eases_running jobs, l.running_limit);
  subject_limit =
      λ s. omega (arith, count-map-le (running_of s) f (e.eases_subject s) jobs, l.subject_limit s);
  work_limit = λ s n a k. omega (
    arith,
    count-map-le (pending_work s n a k) f (e.eases_work s n a k) jobs,
    l.work_limit s n a k,
  );
  tries = All-map_self Tries f e.eases_tries jobs l.tries;
}

pub filter-Limits : (q : Job → Bool) (jobs : List Job) → Limits jobs → Limits (filter q jobs)
filter-Limits q jobs l = record {
  pending_limit = omega (arith, count-filter-le pending_job q jobs, l.pending_limit);
  running_limit = omega (arith, count-filter-le running_job q jobs, l.running_limit);
  subject_limit = λ s. omega (arith, count-filter-le (running_of s) q jobs, l.subject_limit s);
  work_limit =
      λ s n a k. omega (arith, count-filter-le (pending_work s n a k) q jobs, l.work_limit s n a k);
  tries = All-filter Tries q jobs l.tries;
}

pub reap-Eases : (now : ℕ) → Eases (reap_job now)
unfolding reap_job
reap-Eases now = record {
  eases_pending = λ j h. ground arith;
  eases_running = λ j h. ground arith;
  eases_subject = λ s j h. ground arith;
  eases_work = λ s n a k j h. ground arith;
  eases_tries = λ j h. ground arith;
}

pub finish-Eases :
    (now id attempts : ℕ) (r : Option SyncResult) (m : Text)
    → Eases (finish_job now id attempts r m)
unfolding finish_job
finish-Eases now id attempts r m = record {
  eases_pending = λ j h. ground arith;
  eases_running = λ j h. ground arith;
  eases_subject = λ s j h. ground arith;
  eases_work = λ s n a k j h. ground arith;
  eases_tries = λ j h. ground arith;
}

pub cancel-Eases : (now id : ℕ) → Eases (cancel_job now id)
unfolding cancel_job
cancel-Eases now id = record {
  eases_pending = λ j h. ground arith;
  eases_running = λ j h. ground arith;
  eases_subject = λ s j h. ground arith;
  eases_work = λ s n a k j h. ground arith;
  eases_tries = λ j h. ground arith;
}
