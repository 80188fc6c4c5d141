-- ===== src/Ingest/Balance.antt =====
-- The counters of a run, and what the run did.
use egeism.Base.{
  ◌==◌, ◌||◌, none, count, ◌&&◌, ℕ, suc, ◌+◌, ◌≤◌, ◌≡◌, refl, Bool, true, false, Option, some, List,
  [], ◌∷◌, length, arith,
}
use egeism.Base.Text.{Text}
use egeism.Domain.Entities.{TaskStatus}
use egeism.Attempts.Tables.{Db}
use egeism.Ingest.Effects.{active_count, Effect, ingest_one-Effect}
use egeism.Ingest.Runner.{
  World, RawTask, Tally, Outcome, added, duplicate, promoted_one, invalid_one, broken, ingest,
  ingest_from, ingest_one, tables_after, count_outcome, is_held,
}

-- How the candidates of a run ended, each with whether it was held.
abbrev pub is_added : Outcome → Bool
is_added (added d) = true
is_added _ = false

abbrev pub is_duplicate : Outcome → Bool
is_duplicate (duplicate d) = true
is_duplicate _ = false

abbrev pub is_promoted : Outcome → Bool
is_promoted (promoted_one d) = true
is_promoted _ = false

abbrev pub is_invalid : Outcome → Bool
is_invalid invalid_one = true
is_invalid _ = false

abbrev pub is_kept_back : Bool × Outcome → Bool
is_kept_back (held, o) = held && (is_added o || is_duplicate o)

-- The candidates of a run up to the one that breaks it off.
unfoldable pub ends : World → Option TaskStatus → Text → Db → List RawTask → List (Bool × Outcome)
ends w status name db [] = []
ends w status name db (raw ∷ raws) =
    let o = ingest_one w status name db raw in
    elim (tables_after db o) [
      | none ↦ []
      | some after ↦ (is_held w status raw, o) ∷ ends w status name after raws
    ]

-- Each counter grows by the candidates of its kind.
abbrev pub Tallied : List (Bool × Outcome) → Tally → Tally → Type 0
Tallied es old res =
    (res.fetched ≡ old.fetched)
    × (res.inserted ≡ old.inserted + count (λ e. is_added e.1) es)
    × (res.skipped
        ≡ old.skipped + count (λ e. is_duplicate e.1) es + count (λ e. is_promoted e.1) es)
    × (res.promoted ≡ old.promoted + count (λ e. is_promoted e.1) es)
    × (res.invalid ≡ old.invalid + count (λ e. is_invalid e.1) es)
    × (res.held ≡ old.held + count is_kept_back es)

-- The bank grows by the inserted, and its active tasks by the promoted at least.
abbrev pub Grown : Db → Tally → Db → Tally → Type 0
Grown before old after res =
    (length after.tasks + old.inserted ≡ length before.tasks + res.inserted)
    × (active_count before + res.promoted ≤ active_count after + old.promoted)

tally_one :
    (h : Bool) (o : Outcome) (db mid : Db) (res : Tally) (es : List (Bool × Outcome)) (last : Tally)
    → tables_after db o ≡ some mid
    → Tallied es (count_outcome h res o) last
    → Tallied ((h, o) ∷ es) res last
unfolding tables_after count_outcome
tally_one true (added d) db mid res es last e t = ground arith
tally_one false (added d) db mid res es last e t = ground arith
tally_one true (duplicate d) db mid res es last e t = ground arith
tally_one false (duplicate d) db mid res es last e t = ground arith
tally_one true (promoted_one d) db mid res es last e t = ground arith
tally_one false (promoted_one d) db mid res es last e t = ground arith
tally_one true invalid_one db mid res es last e f = ground arith
tally_one false invalid_one db mid res es last e f = ground arith
tally_one h broken db mid res es last e f = absurd (ground arith)

grow_one :
    (h : Bool) (o : Outcome) (db mid after : Db) (res last : Tally)
    → tables_after db o ≡ some mid
    → Effect db o
    → Grown mid (count_outcome h res o) after last
    → Grown db res after last
unfolding tables_after count_outcome
grow_one true (added d) db mid after res last e f t = ground arith
grow_one false (added d) db mid after res last e f t = ground arith
grow_one true (duplicate d) db mid after res last e f t = ground arith
grow_one false (duplicate d) db mid after res last e f t = ground arith
grow_one h (promoted_one d) db mid after res last e f t = ground arith
grow_one h invalid_one db mid after res last e f t = ground arith
grow_one h broken db mid after res last e f t = absurd (ground arith)

-- What the loop does from a bank and counters.
abbrev pub Runs : List (Bool × Outcome) → Db → Tally → ℕ → (Db × Tally) × Bool → Type 0
Runs es db old left ((after, res), finished) =
    Tallied es old res × Grown db old after res × (finished ≡ (length es == left))

ingest_from-Runs :
    (w : World) (status : Option TaskStatus) (name : Text) (db : Db) (res : Tally)
    (raws : List RawTask)
    → Runs (ends w status name db raws) db res (length raws) (ingest_from w status name db res raws)
unfolding ingest_from ends
ingest_from-Runs w status name db res [] = (ground arith, ground arith, refl)
ingest_from-Runs w status name db res (raw ∷ raws) =
    go (λ mid. ingest_from-Runs w status name mid (count_outcome held res o) raws)
      (tables_after db o) refl
  where
    o : Outcome
    o = ingest_one w status name db raw

    held : Bool
    held = is_held w status raw

    Rest : Db → Type 0
    Rest mid =
        Runs (ends w status name mid raws) mid (count_outcome held res o) (length raws)
          (ingest_from w status name mid (count_outcome held res o) raws)

    go :
        ((mid : Db) → Rest mid)
        → (r : Option Db) → tables_after db o ≡ r
        → Runs
            (elim r [ none ↦ [] | some after ↦ (held, o) ∷ ends w status name after raws ])
            db
            res
            (suc (length raws))
            (elim r [
              | none ↦ ((db, res), false)
              | some after ↦ ingest_from w status name after (count_outcome held res o) raws
            ])
    go rest none e = (ground arith, ground arith, ground arith)
    go rest (some mid) e =
        let (tally, grown, finished) = rest mid in
        let r = ingest_from w status name mid (count_outcome held res o) raws in
        (
          tally_one held o db mid res (ends w status name mid raws) r.0.1 e tally,
          grow_one held o db mid r.0.0 res r.0.1 e (ingest_one-Effect w status name db raw) grown,
          ground arith,
        )

abbrev pub no_counts : ℕ → Tally
no_counts n = record { fetched = n; inserted = 0; skipped = 0; invalid = 0; promoted = 0; held = 0 }

-- What a run reports is what it did: it fetched all candidates; it inserted those that were added,
-- by as many tasks the bank is larger; it skipped those that were known, whether or not they were
-- promoted; it promoted those of which a draft was made active, and the active tasks are more by
-- this number at least; it held those that were added or known with a source that is not current,
-- in a run that makes tasks active; and it comes to its end exactly when all candidates are counted.
pub ingest-Runs :
    (w : World) (status : Option TaskStatus) (name : Text) (db : Db) (raws : List RawTask)
    → Runs
        (ends w status name db raws)
        db
        (no_counts (length raws))
        (length raws)
        (ingest w status name db raws)
unfolding ingest
ingest-Runs w status name db raws = ingest_from-Runs w status name db (no_counts (length raws)) raws
