-- ===== src/Budget/Planning/Settle.antt =====
-- backend/app/persistence/planning_budget.py: settle and cancel keep the accounts of the
-- launches.
use muti_agent.Prelude.{
  ◌+◌, ◌==◌, Nat_eq, nat_eq_iff, Bool-cases, Option-cases, false, Option, none, some, List, ◌≡◌,
  inl, inr, refl, arith,
}
use muti_agent.Result.{ok}
use muti_agent.Lease.{Uuid}
use muti_agent.Budget.{TokenUsage, status_for, actual_usage}
use muti_agent.Budget.Planning.{
  PlanningRow, PlanningReservation, PlanningDatabase, find_budget, find_reservation,
  delete_reservation, finish, finish_row, charge,
}
use muti_agent.Budget.Planning.Tables.{
  outstanding, find_reservation-delete, find_reservation-delete_other, outstanding-delete,
  distinct-delete,
}
use muti_agent.Budget.Planning.Ledger.{Ledger, Fits, same_launches, Accounts-update, Backed-update}

finish_row-Ledger :
    (db : PlanningDatabase) (issued : List PlanningReservation) (r : PlanningReservation)
    (usage : Option TokenUsage) (old : PlanningRow)
    → Ledger db issued
    → find_reservation r.reservation_id issued ≡ some r
    → Fits r usage
    → find_reservation r.reservation_id db.reservations ≡ some r
    → find_budget r.launch_id db.budgets ≡ some old
    → Ledger (finish_row r usage db r old) issued
finish_row-Ledger db issued r usage old v mine fits here found =
    let (prompt, completion) =
      actual_usage usage r.reserved_input_tokens r.reserved_output_tokens in
    let change =
      charge (r.reserved_input_tokens + r.reserved_output_tokens) prompt completion
        (status_for (old.used_total_tokens + (prompt + completion)) old.total_budget_tokens) in
    let next = delete_reservation r.reservation_id db.reservations in
    let a = v.accounts r.launch_id old found in
    let sum = outstanding-delete r.launch_id r.reservation_id db.reservations r v.unique here in
    let apart : (other : Uuid)
        → (r.launch_id == other) ≡ false
        → outstanding other next ≡ outstanding other db.reservations =
      λ other h.
        ground (arith, outstanding-delete other r.reservation_id db.reservations r v.unique here) in
    record {
      unique = distinct-delete r.reservation_id db.reservations v.unique;
      known = λ other row h. elim (Bool-cases (r.reservation_id == other)) [
        | inl same ↦ ground (
          arith,
          find_reservation-delete r.reservation_id db.reservations,
          nat_eq_iff r.reservation_id other,
        )
        | inr differ ↦ v.known other row (
            ground
              (arith, find_reservation-delete_other r.reservation_id other db.reservations differ))
      ];
      launched = λ other row h. ground (
        arith,
        v.launched other row h,
        same_launches r.launch_id change (λ x. refl) db.budgets old found row.launch_id,
      );
      backed =
          Backed-update r.launch_id change (λ x. refl) db.budgets old found db.reservations next
            apart v.backed;
      accounts =
          Accounts-update r.launch_id change (λ x. refl) db.budgets old found db.reservations next
            apart v.accounts
            (record {
              reserved = ground (arith, a.reserved, sum, nat_eq_iff r.launch_id r.launch_id);
              shape = ground (arith, a.shape);
              within =
                  ground
                    (arith, a.within, a.reserved, sum, fits, nat_eq_iff r.launch_id r.launch_id);
              attempts = a.attempts;
              some_tokens = a.some_tokens;
              some_attempts = a.some_attempts;
            });
    }

finish-eq :
    (db : PlanningDatabase) (r : PlanningReservation) (usage : Option TokenUsage)
    (old : PlanningRow)
    → find_reservation r.reservation_id db.reservations ≡ some r
    → find_budget r.launch_id db.budgets ≡ some old
    → finish r usage db ≡ (finish_row r usage db r old, ok tt)
unfolding finish
finish-eq db r usage old here found = rw (here, found) refl

finish-gone :
    (db : PlanningDatabase) (r : PlanningReservation) (usage : Option TokenUsage)
    → find_reservation r.reservation_id db.reservations ≡ none
    → finish r usage db ≡ (db, ok tt)
unfolding finish
finish-gone db r usage gone = rw gone refl

pub finish-Ledger :
    (db : PlanningDatabase) (issued : List PlanningReservation) (r : PlanningReservation)
    (usage : Option TokenUsage)
    → Ledger db issued
    → find_reservation r.reservation_id issued ≡ some r
    → Fits r usage
    → (next : PlanningDatabase) × (finish r usage db ≡ (next, ok tt)) × Ledger next issued
finish-Ledger db issued r usage v mine fits =
    elim (Option-cases (find_reservation r.reservation_id db.reservations)) [
      | inl gone ↦ (db, finish-gone db r usage gone, v)
      | inr (row, here) ↦ elim (Option-cases (find_budget r.launch_id db.budgets)) [
        | inl missing ↦ absurd (ground (arith, v.launched r.reservation_id r mine, missing))
        | inr (old, found) ↦
            let mine_here : find_reservation r.reservation_id db.reservations ≡ some r =
              ground (arith, v.known r.reservation_id row here, mine) in
            (
              finish_row r usage db r old,
              finish-eq db r usage old mine_here found,
              finish_row-Ledger db issued r usage old v mine fits mine_here found,
            )
      ]
    ]
