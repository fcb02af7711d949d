-- ===== src/Recovery/Leases.antt =====
-- _validate_leases of backend/app/runtime/recovery.py: the leases that it returns.
use muti_agent.Prelude.{
  List-cases, any, String, String_eq, Nat_eq, nat_eq_iff, ◌==◌, Bool, true, false, ◌&&◌, Option,
  none, some, List, [], ◌∷◌, ◌++◌, all, elem, subset, ◌≡◌, refl, arith, ap, Bool-cases, inl, inr,
}
use text.Mathlib.TextEquality.{eq_iff}
use muti_agent.Result.{ok, >>=-eq-ok}
use muti_agent.Lease.{Time, Uuid, TaskLeaseSnapshot}
use muti_agent.Recovery.Classify.{
  PersistedRunSnapshot, lease_tasks, collect_leases, validate_leases, find_lease, first_observed,
}

-- The lease is of the run and was seen at the time.
abbrev pub is_seen : Uuid → Time → TaskLeaseSnapshot → Bool
is_seen run_id observed_at l = l.run_id == run_id && l.observed_at == observed_at

pub find_lease-all :
    (test : TaskLeaseSnapshot → Bool) (task_id : String) (leases : List TaskLeaseSnapshot)
    (l : TaskLeaseSnapshot)
    → all test leases ≡ true
    → find_lease task_id leases ≡ ok l
    → test l ≡ true
unfolding find_lease
find_lease-all test task_id [] l h found = cc
find_lease-all test task_id (first ∷ rest) l h found =
    ground (arith, find_lease-all test task_id rest l)

pub find_lease-elem :
    (task_id : String) (leases : List TaskLeaseSnapshot)
    → elem task_id (lease_tasks leases) ≡ true
    → (l : TaskLeaseSnapshot) × (find_lease task_id leases ≡ ok l) × (l.task_id ≡ task_id)
unfolding find_lease lease_tasks
find_lease-elem task_id [] h = cc
find_lease-elem task_id (first ∷ rest) h = elim (Bool-cases (first.task_id == task_id)) [
  | inl same ↦ (first, ground arith, (eq_iff first.task_id task_id).0 same)
  | inr differ ↦
      let (l, found, e) =
        find_lease-elem task_id rest
          (ground (arith, eq_iff task_id first.task_id, eq_iff first.task_id task_id)) in
      (l, ground arith, e)
]

append_nil : {A : Type 0} → (xs : List A) → xs ++ [] ≡ xs
append_nil [] = refl
append_nil (x ∷ xs) = ap (λ ys. x ∷ ys) (append_nil xs)

append_assoc :
    {A : Type 0} → (xs : List A) (y : A) (ys : List A) → (xs ++ y ∷ []) ++ ys ≡ xs ++ y ∷ ys
append_assoc [] y ys = refl
append_assoc (x ∷ xs) y ys = ap (λ zs. x ∷ zs) (append_assoc xs y ys)

collect-same :
    (run_id : Uuid) (seen : List TaskLeaseSnapshot) (at : Option Time)
    (leases by_task : List TaskLeaseSnapshot)
    → collect_leases run_id seen at leases ≡ ok by_task
    → by_task ≡ seen ++ leases
unfolding collect_leases
collect-same run_id seen at [] by_task h = ground (arith, append_nil seen)
collect-same run_id seen at (l ∷ leases) by_task h = ground (
  arith,
  collect-same run_id (seen ++ l ∷ []) (some l.observed_at) leases by_task,
  append_assoc seen l leases,
)

collect-seen :
    (run_id : Uuid) (seen : List TaskLeaseSnapshot) (at : Time)
    (leases by_task : List TaskLeaseSnapshot)
    → collect_leases run_id seen (some at) leases ≡ ok by_task
    → all (is_seen run_id at) leases ≡ true
unfolding collect_leases
collect-seen run_id seen at [] by_task h = refl
collect-seen run_id seen at (l ∷ leases) by_task h = ground (
  arith,
  collect-seen run_id (seen ++ l ∷ []) at leases by_task,
  nat_eq_iff at l.observed_at,
  nat_eq_iff l.observed_at at,
)

first-seen :
    (run_id : Uuid) (leases by_task : List TaskLeaseSnapshot) (at : Time)
    → collect_leases run_id [] none leases ≡ ok by_task
    → first_observed leases ≡ ok at
    → all (is_seen run_id at) leases ≡ true
unfolding collect_leases
first-seen run_id [] by_task at h e = cc
first-seen run_id (l ∷ leases) by_task at h e = ground (
  arith,
  collect-seen run_id (l ∷ []) l.observed_at leases by_task,
  nat_eq_iff l.observed_at l.observed_at,
)

-- The leases are returned as they came; they are all of the run, seen at the time of the first of
-- them, and one of them is of each task.
pub validate_leases-seen :
    (snapshot : PersistedRunSnapshot) (leases by_task : List TaskLeaseSnapshot) (at : Time)
    → validate_leases snapshot leases ≡ ok by_task
    → first_observed by_task ≡ ok at
    → (by_task ≡ leases)
      × (all (is_seen snapshot.run_id at) by_task ≡ true)
      × (subset snapshot.tasks (lease_tasks by_task) ≡ true)
unfolding validate_leases
validate_leases-seen snapshot leases by_task at h e =
    let (first, collected, rest) = >>=-eq-ok (collect_leases snapshot.run_id [] none leases) _ h in
    let same : by_task ≡ first = ground arith in
    let all_of : first ≡ leases = collect-same snapshot.run_id [] none leases first collected in
    (
      ground (arith, same, all_of),
      ground (arith, first-seen snapshot.run_id leases first at collected, same, all_of),
      ground (arith, same),
    )

pub find_lease-any-false :
    (test : TaskLeaseSnapshot → Bool) (task_id : String) (leases : List TaskLeaseSnapshot)
    (l : TaskLeaseSnapshot)
    → any test leases ≡ false
    → find_lease task_id leases ≡ ok l
    → test l ≡ false
unfolding find_lease
find_lease-any-false test task_id [] l h found = cc
find_lease-any-false test task_id (first ∷ rest) l h found =
    ground (arith, find_lease-any-false test task_id rest l)

pub validate_leases-none :
    (snapshot : PersistedRunSnapshot) (leases : List TaskLeaseSnapshot)
    → validate_leases snapshot leases ≡ ok []
    → snapshot.tasks ≡ []
unfolding validate_leases lease_tasks
validate_leases-none snapshot leases h = elim (List-cases snapshot.tasks) [
  | inl none_left ↦ none_left
  | inr (t, ts, e) ↦
      let (first, collected, rest) =
        >>=-eq-ok (collect_leases snapshot.run_id [] none leases) _ h in
      let nothing : first ≡ [] = ground arith in absurd (ground arith)
]

pub find_lease-task_id :
    (task_id : String) (leases : List TaskLeaseSnapshot) (l : TaskLeaseSnapshot)
    → find_lease task_id leases ≡ ok l
    → l.task_id ≡ task_id
unfolding find_lease
find_lease-task_id task_id [] l found = cc
find_lease-task_id task_id (first ∷ rest) l found =
    ground (arith, find_lease-task_id task_id rest l, eq_iff first.task_id task_id)
