-- ===== src/Budget/Runs/Settle.antt =====
-- backend/app/persistence/token_budget.py: settle and cancel keep the accounts of the runs.
use muti_agent.Prelude.{
  ap, ◌+◌, ◌==◌, Nat_eq, nat_eq_iff, false, Option, none, some, List, ◌≡◌, ◌≤◌, refl, arith,
  Bool-cases, Option-cases, inl, inr, if◌then◌else◌,
}
use muti_agent.Result.{ok}
use muti_agent.Lease.{Uuid}
use muti_agent.Budget.{TokenUsage, actual_usage, status_for}
use muti_agent.Budget.Planning.Tables.{outstanding, outstanding-delete, distinct-delete}
use muti_agent.Budget.Runs.{
  RunBudgetRow, RunReservationRow, TokenBudgetReservation, BudgetDatabase, find_row, delete_row,
  returned, charge, finish_row, finish,
}
use muti_agent.Budget.Runs.Holds.{
  hold, holds_of, find-holds_of, holds_of-delete, find_row-delete, find_row-delete_other,
  RunAccounts-with_row, RunBacked-with_row,
}
use muti_agent.Budget.Runs.Accounts.{find_issued, RunLedger}

-- The usage is no more than the reservation.
abbrev pub FitsReservation : TokenBudgetReservation → Option TokenUsage → Type 0
FitsReservation r usage =
    (actual_usage usage r.reserved_input_tokens r.reserved_output_tokens).0
      + (actual_usage usage r.reserved_input_tokens r.reserved_output_tokens).1
    ≤ r.reserved_input_tokens + r.reserved_output_tokens

finish_row-RunLedger :
    (db : BudgetDatabase) (issued : List TokenBudgetReservation) (r : TokenBudgetReservation)
    (usage : Option TokenUsage) (row : RunReservationRow) (old : RunBudgetRow)
    → RunLedger db issued
    → FitsReservation r usage
    → find_row r.reservation_id db.reservations ≡ some row
    → returned row ≡ r
    → db.budgets r.run_id ≡ some old
    → RunLedger (finish_row r usage db row old) issued
finish_row-RunLedger db issued r usage row old v fits here same found =
    let (prompt, completion) =
      actual_usage usage r.reserved_input_tokens r.reserved_output_tokens in
    let reserved = row.reserved_input_tokens + row.reserved_output_tokens in
    let next =
      charge reserved prompt completion
        (status_for (old.used_total_tokens + (prompt + completion)) old.total_budget_tokens) old in
    let after = delete_row r.reservation_id db.reservations in
    let a = v.accounts r.run_id old found in
    let held = find-holds_of r.reservation_id db.reservations row here in
    let gone = holds_of-delete r.reservation_id db.reservations in
    let sum : (other : Uuid)
        → outstanding other (holds_of db.reservations)
          ≡ (if row.run_id == other
              then row.reserved_input_tokens + row.reserved_output_tokens
              else 0)
            + outstanding other (holds_of after) =
      λ other. rw gone (
        outstanding-delete other r.reservation_id (holds_of db.reservations) (hold row) v.unique
          held) in
    let owner : row.run_id ≡ r.run_id = ap (λ x. x.run_id) same in
    let input : row.reserved_input_tokens ≡ r.reserved_input_tokens =
      ap (λ x. x.reserved_input_tokens) same in
    let output : row.reserved_output_tokens ≡ r.reserved_output_tokens =
      ap (λ x. x.reserved_output_tokens) same in
    let apart : (other : Uuid)
        → (r.run_id == other) ≡ false
        → outstanding other (holds_of after) ≡ outstanding other (holds_of db.reservations) =
      λ other h. ground (arith, sum other, owner) in
    record {
      unique = rw gone (distinct-delete r.reservation_id (holds_of db.reservations) v.unique);
      known = λ other found_row h. elim (Bool-cases (r.reservation_id == other)) [
        | inl this ↦ ground (
          arith,
          find_row-delete r.reservation_id db.reservations,
          nat_eq_iff r.reservation_id other,
        )
        | inr differ ↦
            v.known other found_row
              (ground (arith, find_row-delete_other r.reservation_id other db.reservations differ))
      ];
      started = λ id x h. ground (arith, v.started id x h);
      backed = RunBacked-with_row r.run_id next db.budgets db.reservations after apart v.backed;
      accounts =
          RunAccounts-with_row r.run_id next db.budgets db.reservations after apart v.accounts
            (record {
              reserved =
                  ground (arith, a.reserved, sum r.run_id, owner, nat_eq_iff r.run_id r.run_id);
              shape = omega (arith, a.shape);
              within = ground (
                arith,
                a.within,
                a.reserved,
                sum r.run_id,
                owner,
                input,
                output,
                fits,
                nat_eq_iff r.run_id r.run_id,
              );
            });
    }

finish-eq :
    (db : BudgetDatabase) (r : TokenBudgetReservation) (usage : Option TokenUsage)
    (row : RunReservationRow) (old : RunBudgetRow)
    → find_row r.reservation_id db.reservations ≡ some row
    → db.budgets r.run_id ≡ some old
    → finish r usage db ≡ (finish_row r usage db row old, ok tt)
unfolding finish
finish-eq db r usage row old here found = rw (here, found) refl

finish-gone :
    (db : BudgetDatabase) (r : TokenBudgetReservation) (usage : Option TokenUsage)
    → find_row r.reservation_id db.reservations ≡ none
    → finish r usage db ≡ (db, ok tt)
unfolding finish
finish-gone db r usage gone = rw gone refl

pub finish-RunLedger :
    (db : BudgetDatabase) (issued : List TokenBudgetReservation) (r : TokenBudgetReservation)
    (usage : Option TokenUsage)
    → RunLedger db issued
    → find_issued r.reservation_id issued ≡ some r
    → FitsReservation r usage
    → RunLedger (finish r usage db).0 issued
finish-RunLedger db issued r usage v mine fits =
    elim (Option-cases (find_row r.reservation_id db.reservations)) [
      | inl gone ↦ rw (finish-gone db r usage gone) v
      | inr (row, here) ↦ elim (Option-cases (db.budgets r.run_id)) [
        | inl missing ↦ absurd (ground (arith, v.started r.reservation_id r mine, missing))
        | inr (old, found) ↦
            let same : returned row ≡ r = ground (arith, v.known r.reservation_id row here, mine) in
            rw (finish-eq db r usage row old here found)
              (finish_row-RunLedger db issued r usage row old v fits here same found)
      ]
    ]
