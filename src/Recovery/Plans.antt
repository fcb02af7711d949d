-- ===== src/Recovery/Plans.antt =====
-- RecoveryStateClassifier of backend/app/runtime/recovery.py: the plans that it makes.
use muti_agent.Prelude.{
  List-cases, ◌∙◌, subst, beq_refl, String, String_eq, Nat_eq, nat_eq_iff, true, false, ◌&&◌, List,
  [], ◌∷◌, all, elem, all-elim, distinct, ◌≡◌, ◌≢◌, refl, arith, sym, inl, inr, Member, here, there,
}
use muti_agent.Result.{ok-injective, raise_if-eq-ok, ok, >>=-eq-ok, traverse}
use muti_agent.Lease.{Time, TaskLeaseSnapshot, expired, holds, is_unowned}
use muti_agent.Lease.Store.{is_running}
use muti_agent.Recovery.{
  TaskRecoveryAssessment, RunRecoveryPlan, redispatch_candidate_expired_generation, validate_tasks,
  assessed_ids, validate_plan_shape,
}
use muti_agent.Recovery.Evidence.{
  PersistedEvidence, WorkerExecutionEvidence, WorkerSide, decode_execution, has_worker_side,
  decode_worker_side_evidence, validate_unowned_worker_evidence,
}
use muti_agent.Recovery.Classify.{
  PersistedRunSnapshot, assessment_of, lease_tasks, validate_leases, find_lease, first_observed,
  classify_task, classify,
}
use muti_agent.Recovery.Leases.{
  find_lease-task_id, validate_leases-none, find_lease-any-false, is_seen, find_lease-all,
  find_lease-elem, validate_leases-seen,
}
use muti_agent.Recovery.Sides.{is_stored, is_execution, decoded-has_id, decoded-finds}
use muti_agent.Recovery.Diagnoses.{is_shaped, Justified, Diagnosed, classify_task-Diagnosed}

-- The corruption checks of classify.
pub record Passes (snapshot : PersistedRunSnapshot) (leases : List TaskLeaseSnapshot)
    (by_task : List TaskLeaseSnapshot) (side : WorkerSide) : Type 0 where
  pub of_tasks : validate_leases snapshot leases ≡ ok by_task
  pub decoded :
      decode_worker_side_evidence snapshot.run_id snapshot.tasks snapshot.evidence ≡ ok side
  pub owned : validate_unowned_worker_evidence by_task side ≡ ok tt

-- The models that the two reads return.
pub record Read (snapshot : PersistedRunSnapshot) (leases : List TaskLeaseSnapshot) : Type 0 where
  pub some_tasks : snapshot.tasks ≢ []
  pub unique_tasks : distinct snapshot.tasks ≡ true
  pub ids : all is_stored snapshot.evidence ≡ true
  pub shaped : all is_shaped leases ≡ true

-- A task of a plan has a lease, and a reason for its disposition.
abbrev pub Explained :
    PersistedRunSnapshot → List TaskLeaseSnapshot → WorkerSide → TaskRecoveryAssessment → Type 0
Explained snapshot leases side a =
    (l : TaskLeaseSnapshot) × (find_lease a.task_id leases ≡ ok l)
    × (a.lease_state ≡ l.state)
    × (a.lease_dispatch_id ≡ l.dispatch_id)
    × Justified snapshot side l a.disposition

cons_each :
    {A : Type 0} {P : A → Type 0} (a : A) (rest : List A)
    → P a
    → ((b : A) → Member b rest → P b)
    → (b : A) → Member b (a ∷ rest)
    → P b
cons_each a rest this each _ here = this
cons_each a rest this each b (there m) = each b m

module _ (snapshot : PersistedRunSnapshot) (leases by_task : List TaskLeaseSnapshot)
    (side : WorkerSide) (at : Time) (read : Read snapshot leases)
    (passes : Passes snapshot leases by_task side) (first : first_observed by_task ≡ ok at) where
  task-Diagnosed :
      (task_id : String)
      → elem task_id snapshot.tasks ≡ true
      → (l : TaskLeaseSnapshot) × (find_lease task_id by_task ≡ ok l)
        × (l.task_id ≡ task_id)
        × (l.observed_at ≡ at)
        × Diagnosed snapshot side l (classify_task snapshot by_task side task_id)
  unfolding validate_unowned_worker_evidence
  task-Diagnosed task_id m =
      let (same, seen, covered) =
        validate_leases-seen snapshot leases by_task at passes.of_tasks first in
      let (l, found, e) =
        find_lease-elem task_id by_task
          (all-elim (λ x. elem x (lease_tasks by_task)) snapshot.tasks task_id covered m) in
      let here = find_lease-all (is_seen snapshot.run_id at) task_id by_task l seen found in
      let shaped = find_lease-all is_shaped task_id by_task l (rw same read.shaped) found in
      let clean =
        find_lease-any-false (λ x. is_unowned x.state && has_worker_side x.task_id side) task_id
          by_task l (raise_if-eq-ok _ _ passes.owned) found in
      (
        l,
        found,
        e,
        ground (arith, nat_eq_iff l.observed_at at),
        classify_task-Diagnosed snapshot side by_task task_id l
            (decoded-has_id snapshot.run_id snapshot.tasks snapshot.evidence side passes.decoded
              read.ids)
            shaped clean found,
      )

  all_tasks :
      (tasks : List String)
      → ((t : String) → elem t tasks ≡ true → elem t snapshot.tasks ≡ true)
      → (plans : List TaskRecoveryAssessment) × (traverse
            (classify_task snapshot by_task side)
            tasks
          ≡ ok plans)
        × (validate_tasks snapshot.run_id at plans ≡ ok tt)
        × (assessed_ids plans ≡ tasks)
        × ((a : TaskRecoveryAssessment) → Member a plans → Explained snapshot leases side a)
  unfolding traverse validate_tasks assessed_ids
  all_tasks [] h = ([], refl, refl, refl, λ a m. elim m [ ])
  all_tasks (t ∷ ts) h =
      let (l, found, named, time, (d, w, e, why)) =
        task-Diagnosed t (h t (ground (arith, beq_refl t))) in
      let (rest, done, valid, ids, each) = all_tasks ts (λ u m. h u (ground arith)) in
      let a = assessment_of snapshot l d w in
      let same = (validate_leases-seen snapshot leases by_task at passes.of_tasks first).0 in
      (
        a ∷ rest,
        ground (arith, e, done),
        ground (arith, valid, time, nat_eq_iff at at, beq_refl snapshot.run_id),
        ground (arith, ids, named),
        cons_each {P = Explained snapshot leases side} a rest
            (l, ground (arith, found, named, same), refl, refl, why) each,
      )

  plan_of : List TaskRecoveryAssessment → RunRecoveryPlan
  plan_of tasks = record {
    run_id = snapshot.run_id;
    run_status = snapshot.status;
    observed_at = at;
    tasks = tasks;
  }

  made :
      (tasks : List TaskRecoveryAssessment)
      → traverse (classify_task snapshot by_task side) snapshot.tasks ≡ ok tasks
      → validate_tasks snapshot.run_id at tasks ≡ ok tt
      → assessed_ids tasks ≡ snapshot.tasks
      → classify snapshot leases ≡ ok (plan_of tasks)
  unfolding classify validate_plan_shape plan_of assessed_ids
  made tasks each valid named = ground (
    arith, passes.of_tasks, passes.decoded, passes.owned, first, read.some_tasks, read.unique_tasks,
  )

  classified :
      (plan : RunRecoveryPlan) × (classify snapshot leases ≡ ok plan)
      × (assessed_ids plan.tasks ≡ snapshot.tasks)
      × ((a : TaskRecoveryAssessment) → Member a plan.tasks → Explained snapshot leases side a)
  unfolding plan_of
  classified =
      let (tasks, each, valid, named, why) = all_tasks snapshot.tasks (λ t m. m) in
      (plan_of tasks, made tasks each valid named, named, why)

module _ (snapshot : PersistedRunSnapshot) (leases : List TaskLeaseSnapshot)
    (read : Read snapshot leases) where
  -- For a run snapshot with distinct tasks, at least one, evidence ids above zero and leases
  -- that pass validate_shape: if the leases, the worker-side evidence and the unowned tasks pass
  -- their corruption checks, classify returns a plan that has the tasks of the run in order, and
  -- each assessment is of the lease of its task and has the disposition that the status of the
  -- run, the state of the lease and the worker evidence of its dispatch call for; so no
  -- validator of the two recovery models fails.
  pub classify-Explained :
      (by_task : List TaskLeaseSnapshot) (side : WorkerSide)
      → Passes snapshot leases by_task side
      → (plan : RunRecoveryPlan) × (classify snapshot leases ≡ ok plan)
        × (assessed_ids plan.tasks ≡ snapshot.tasks)
        × ((a : TaskRecoveryAssessment) → Member a plan.tasks → Explained snapshot leases side a)
  classify-Explained by_task side passes = elim (List-cases by_task) [
    | inl nothing ↦
        absurd
          (read.some_tasks (validate_leases-none snapshot leases (ground (arith, passes.of_tasks))))
    | inr (l, rest, e) ↦
        classified snapshot leases by_task side l.observed_at read passes (rw e refl)
  ]

  classify-Passes :
      (plan : RunRecoveryPlan)
      → classify snapshot leases ≡ ok plan
      → (by_task : List TaskLeaseSnapshot) × (side : WorkerSide) × Passes snapshot leases by_task
          side
  unfolding classify
  classify-Passes plan h =
      let (by_task, of_tasks, h1) = >>=-eq-ok (validate_leases snapshot leases) _ h in
      let (at, first, h2) = >>=-eq-ok (first_observed by_task) _ h1 in
      let (side, decoded, h3) =
        >>=-eq-ok (decode_worker_side_evidence snapshot.run_id snapshot.tasks snapshot.evidence) _
          h2 in
      let (u, owned, h4) = >>=-eq-ok (validate_unowned_worker_evidence by_task side) _ h3 in
      (by_task, side, record { of_tasks = of_tasks; decoded = decoded; owned = owned })

  plan-Explained :
      (plan : RunRecoveryPlan)
      → classify snapshot leases ≡ ok plan
      → (by_task : List TaskLeaseSnapshot) × (side : WorkerSide) × Passes snapshot leases by_task
          side
        × ((a : TaskRecoveryAssessment) → Member a plan.tasks → Explained snapshot leases side a)
  plan-Explained plan h =
      let (by_task, side, passes) = classify-Passes plan h in
      let (other, e, named, why) = classify-Explained by_task side passes in
      let same : other ≡ plan = ok-injective other plan (sym e ∙ h) in
      (by_task, side, passes, λ a m. why a (rw same m))

  -- For a run snapshot with distinct tasks, at least one, evidence ids above zero and leases
  -- that pass validate_shape: when classify returns a plan in which a task is a redispatch
  -- candidate, the run is RUNNING, the lease is EXPIRED, and no row of WORKER_EXECUTION evidence
  -- of the run decodes to an execution of that task under the dispatch of the lease.
  pub classify-redispatch :
      (plan : RunRecoveryPlan) (a : TaskRecoveryAssessment)
      → classify snapshot leases ≡ ok plan
      → Member a plan.tasks
      → a.disposition ≡ redispatch_candidate_expired_generation
      → (is_running snapshot.status ≡ true)
        × (a.lease_state ≡ expired)
        × ((e : PersistedEvidence) (x : WorkerExecutionEvidence)
            → Member e snapshot.evidence
            → is_execution e.kind ≡ true
            → decode_execution e.payload ≡ ok x
            → x.task_id ≡ a.task_id
            → holds a.lease_dispatch_id x.dispatch_id ≡ false)
  classify-redispatch plan a h m redispatch =
      let (by_task, side, passes, why) = plan-Explained plan h in
      let (l, found, state, dispatched, reason) = why a m in
      let found_named = find_lease-task_id a.task_id leases l found in
      let (up, gone, (dispatch, at, missing)) =
        subst (Justified snapshot side l) redispatch reason in
      (
        up,
        state ∙ gone,
        λ e x here kind decoded same. ground (
          arith,
          decoded-finds snapshot.run_id snapshot.tasks snapshot.evidence side e x passes.decoded
              here kind decoded,
          found_named,
          dispatched,
          at,
          missing,
          same,
          nat_eq_iff dispatch x.dispatch_id,
        ),
      )
