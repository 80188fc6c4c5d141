-- ===== src/Practice/Planning.antt =====
-- The merge of the sources of a session.
use mathlib.Core.List.{append-nil, append_assoc}
use native.Mathlib.Nat.{sub-zero}
use egeism.Base.{
  ℕ, zero, suc, ◌-◌, ◌≤◌, ◌<◌, ◌≡◌, refl, ◌∙◌, inl, inr, true, false, List, [], ◌∷◌, ◌++◌, map,
  length, length-append, length-take, take, take-nil, mem, IsDistinct, ◌==◌, leb, leb→le,
  if◌then◌else◌, Bool-cases, arith,
}
use egeism.Base.Int.{ℤ}
use egeism.Domain.Entities.{Task}
use egeism.Practice.Session.{
  practice_limit, Loop, returned, going, plan_group, plan_groups, recommend_plan,
}

-- A limit that the client sends is brought into the range from 1 to the maximum.
pub practice_limit_range :
    (limit : ℤ) (def most : ℕ)
    → 0 < def
    → def ≤ most
    → (0 < practice_limit limit def most) × (practice_limit limit def most ≤ most)
unfolding practice_limit
practice_limit_range limit def most h k = ground arith

-- The first task of each id that is not among the seen ones.
pub dedup : List ℕ → List Task → List Task
dedup seen [] = []
dedup seen (t ∷ ts) = if mem t.id seen then dedup seen ts else t ∷ dedup (t.id ∷ seen) ts

-- What the plan comes to from a state of the loop, with `ts` to come.
abbrev planned : ℕ → List ℕ → List Task → List Task → List Task
planned limit seen out ts = out ++ take (limit - length out) (dedup seen ts)

-- The loop over a group ends with the plan, or in a state from which the plan is the same.
abbrev Keeps : ℕ → List Task → List Task → Loop → Type 0
Keeps limit more plan (returned final) = final ≡ plan
Keeps limit more plan (going seen out) = planned limit seen out more ≡ plan

planned_full :
    (limit : ℕ) (seen : List ℕ) (out ts : List Task)
    → limit ≤ length out
    → out ≡ planned limit seen out ts
planned_full limit seen out ts h =
    let e : limit - length out ≡ zero = omega arith in rw (e, append-nil) refl

planned_take :
    (limit : ℕ) (seen : List ℕ) (out : List Task) (t : Task) (ts : List Task)
    → length out < limit
    → mem t.id seen ≡ false
    → planned limit (t.id ∷ seen) (out ++ t ∷ []) ts ≡ planned limit seen out (t ∷ ts)
unfolding dedup
planned_take limit seen out t ts h m =
    let e : limit - length out ≡ suc (limit - length (out ++ t ∷ [])) =
      omega (arith, length-append out (t ∷ [])) in
    rw (e, m, append_assoc) refl

planned_skip :
    (limit : ℕ) (seen : List ℕ) (out : List Task) (t : Task) (ts : List Task)
    → mem t.id seen ≡ true
    → planned limit seen out ts ≡ planned limit seen out (t ∷ ts)
unfolding dedup
planned_skip limit seen out t ts m = rw m refl

planned_nil : (limit : ℕ) (seen : List ℕ) (out : List Task) → out ≡ planned limit seen out []
unfolding dedup
planned_nil limit seen out = rw (take-nil (limit - length out), append-nil) refl

plan_group-Keeps :
    (limit : ℕ) (seen : List ℕ) (out ts more : List Task)
    → Keeps limit more (planned limit seen out (ts ++ more)) (plan_group limit seen out ts)
unfolding plan_group
plan_group-Keeps limit seen out [] more = refl
plan_group-Keeps limit seen out (t ∷ ts) more = elim (Bool-cases (leb limit (length out))) [
  | inl full ↦
      rw full (planned_full limit seen out (t ∷ ts ++ more) (leb→le limit (length out) full))
  | inr room ↦ elim (Bool-cases (mem t.id seen)) [
    | inl old ↦
        rw (room, old)
          (rw (← planned_skip limit seen out t (ts ++ more) old)
            (plan_group-Keeps limit seen out ts more))
    | inr new ↦
        rw (room, new)
          (rw (← planned_take limit seen out t (ts ++ more) (ground arith) new)
            (plan_group-Keeps limit (t.id ∷ seen) (out ++ t ∷ []) ts more))
  ]
]

abbrev flat : List (List Task) → List Task
flat [] = []
flat (g ∷ gs) = g ++ flat gs

resume :
    (limit : ℕ) (gs : List (List Task)) (plan : List Task) (r : Loop)
    → ((seen : List ℕ) (out : List Task)
        → plan_groups limit seen out gs ≡ planned limit seen out (flat gs))
    → Keeps limit (flat gs) plan r
    → ◌≡◌ {A = List Task}
        (elim r [ returned final ↦ final | going seen out ↦ plan_groups limit seen out gs ])
        plan
resume limit gs plan (returned final) h k = k
resume limit gs plan (going seen out) h k = h seen out ∙ k

plan_groups-planned :
    (limit : ℕ) (seen : List ℕ) (out : List Task) (gs : List (List Task))
    → plan_groups limit seen out gs ≡ planned limit seen out (flat gs)
unfolding plan_groups
plan_groups-planned limit seen out [] = planned_nil limit seen out
plan_groups-planned limit seen out (g ∷ gs) =
    resume limit gs (planned limit seen out (g ++ flat gs)) (plan_group limit seen out g)
      (λ s o. plan_groups-planned limit s o gs) (plan_group-Keeps limit seen out g (flat gs))

-- A session is the first `limit` tasks, each id once at its first place, of the mistakes, the drills
-- of weak numbers and the fresh tasks in this order; a limit of zero counts as 12.
pub recommend_plan-dedup :
    (mistakes weak fresh : List Task) (limit : ℕ)
    → recommend_plan mistakes weak fresh limit
      ≡ take (if limit == 0 then 12 else limit) (dedup [] (mistakes ++ (weak ++ fresh)))
unfolding recommend_plan
recommend_plan-dedup mistakes weak fresh limit =
    plan_groups-planned (if limit == 0 then 12 else limit) [] [] (mistakes ∷ weak ∷ fresh ∷ [])
    ∙ rw (append-nil, sub-zero) refl

abbrev pub ids : List Task → List ℕ
ids ts = map (λ t. t.id) ts

dedup-absent :
    (k : ℕ) (seen : List ℕ) (ts : List Task)
    → mem k seen ≡ true
    → (n : ℕ) → mem k (ids (take n (dedup seen ts))) ≡ false
unfolding dedup
dedup-absent k seen [] h n = rw (take-nil n) refl
dedup-absent k seen (t ∷ ts) h zero = refl
dedup-absent k seen (t ∷ ts) h (suc n) = elim (Bool-cases (mem t.id seen)) [
  | inl old ↦ rw old (dedup-absent k seen ts h (suc n))
  | inr new ↦ rw new (ground (arith, dedup-absent k (t.id ∷ seen) ts (ground arith) n))
]

dedup-IsDistinct :
    (seen : List ℕ) (ts : List Task) (n : ℕ) → IsDistinct (ids (take n (dedup seen ts)))
unfolding dedup
dedup-IsDistinct seen [] n = rw (take-nil n) tt
dedup-IsDistinct seen (t ∷ ts) zero = tt
dedup-IsDistinct seen (t ∷ ts) (suc n) = elim (Bool-cases (mem t.id seen)) [
  | inl old ↦ rw old (dedup-IsDistinct seen ts (suc n))
  | inr new ↦
      rw new
        (dedup-absent t.id (t.id ∷ seen) ts (ground arith) n, dedup-IsDistinct (t.id ∷ seen) ts n)
]

-- No task is twice in a session, and a session has at most `limit` tasks, or 12 if that is zero.
pub recommend_plan-IsDistinct :
    (mistakes weak fresh : List Task) (limit : ℕ)
    → IsDistinct (ids (recommend_plan mistakes weak fresh limit))
      × (length (recommend_plan mistakes weak fresh limit) ≤ (if limit == 0 then 12 else limit))
recommend_plan-IsDistinct mistakes weak fresh limit =
    rw (recommend_plan-dedup mistakes weak fresh limit) (
      dedup-IsDistinct [] (mistakes ++ (weak ++ fresh)) (if limit == 0 then 12 else limit),
      ground (
        arith,
        length-take (if limit == 0 then 12 else limit) (dedup [] (mistakes ++ (weak ++ fresh))),
      ),
    )
