-- ===== src/Budget/Runs/Accounts.antt =====
-- backend/app/persistence/token_budget.py: the accounts of the runs, over any sequence of calls.
use muti_agent.Prelude.{
  ℕ, ◌+◌, ◌==◌, Nat_eq, nat_eq_iff, true, false, Option, none, some, List, [], ◌∷◌, ◌≡◌, ◌≤◌, refl,
  sym, arith, Option-cases, inl, inr, distinct, if◌then◌else◌,
}
use muti_agent.Result.{Result, ok, err}
use muti_agent.Lease.{Uuid, is_none}
use muti_agent.Budget.{RunTokenBudgetStatus, status_for}
use muti_agent.Budget.Planning.Tables.{outstanding, reservation_ids, elem-reservation_ids}
use muti_agent.Budget.Runs.Shares.{LivenessCredit}
use muti_agent.Budget.Runs.{
  RunBudgetRow, RunReservationRow, TokenBudgetReservation, BudgetDatabase, BudgetError,
  insert_budget, new_budget, set_budget, find_row, update_status, write_reservation, returned,
}
use muti_agent.Budget.Runs.Holds.{
  holds_of, absent-holds_of, IsRunAccount, RunAccounts, RunBacked, RunAccounts-with_row,
  RunBacked-with_row,
}

abbrev pub find_issued : Uuid → List TokenBudgetReservation → Option TokenBudgetReservation
find_issued id [] = none
find_issued id (r ∷ rs) = if r.reservation_id == id then some r else find_issued id rs

-- The database and the reservations that reserve has returned so far.
pub record RunLedger (db : BudgetDatabase) (issued : List TokenBudgetReservation) : Type 0 where
  pub unique : distinct (reservation_ids (holds_of db.reservations)) ≡ true
  pub known :
      (id : Uuid) (row : RunReservationRow)
      → find_row id db.reservations ≡ some row
      → find_issued id issued ≡ some (returned row)
  pub started :
      (id : Uuid) (r : TokenBudgetReservation)
      → find_issued id issued ≡ some r
      → is_none (db.budgets r.run_id) ≡ false
  pub backed : RunBacked db.budgets db.reservations
  pub accounts : RunAccounts db.budgets db.reservations

abbrev pub issue :
    Result BudgetError TokenBudgetReservation
    → List TokenBudgetReservation
    → List TokenBudgetReservation
issue (ok r) issued = r ∷ issued
issue (err e) issued = issued

-- Another row for a run, behind which the same reservations stand.
pub set_budget-RunLedger :
    (db : BudgetDatabase) (issued : List TokenBudgetReservation) (run : Uuid) (row : RunBudgetRow)
    → RunLedger db issued
    → IsRunAccount row (outstanding run (holds_of db.reservations))
    → RunLedger (set_budget run row db) issued
set_budget-RunLedger db issued run row v account = record {
  unique = v.unique;
  known = v.known;
  started = λ id r h. ground (arith, v.started id r h);
  backed =
      RunBacked-with_row run row db.budgets db.reservations db.reservations (λ o h. refl) v.backed;
  accounts =
      RunAccounts-with_row run row db.budgets db.reservations db.reservations (λ o h. refl)
        v.accounts account;
}

new-IsRunAccount : (total held : ℕ) → held ≡ 0 → IsRunAccount (new_budget total) held
new-IsRunAccount total held h = record { reserved = sym h; shape = refl; within = ground arith }

pub insert-RunLedger :
    (db : BudgetDatabase) (issued : List TokenBudgetReservation) (run : Uuid) (total : ℕ)
    → RunLedger db issued
    → RunLedger (insert_budget run total db) issued
insert-RunLedger db issued run total v = elim (Option-cases (db.budgets run)) [
  | inl missing ↦
      let e : insert_budget run total db ≡ set_budget run (new_budget total) db = ground arith in
      rw e (
        set_budget-RunLedger db issued run (new_budget total) v
          (new-IsRunAccount total _ (v.backed run (ground arith))))
  | inr (row, found) ↦ let e : insert_budget run total db ≡ db = ground arith in rw e v
]

pub status-RunLedger :
    (db : BudgetDatabase) (issued : List TokenBudgetReservation) (run : Uuid)
    (status : RunTokenBudgetStatus)
    → RunLedger db issued
    → RunLedger (update_status run status db) issued
status-RunLedger db issued run status v = elim (Option-cases (db.budgets run)) [
  | inl missing ↦ let e : update_status run status db ≡ db = ground arith in rw e v
  | inr (row, found) ↦
      let a = v.accounts run row found in
      let e : update_status run status db ≡ set_budget run (record row { status = status }) db =
        ground arith in
      rw e (
        set_budget-RunLedger db issued run (record row { status = status }) v
          (record { reserved = a.reserved; shape = a.shape; within = a.within }))
]

pub write-RunLedger :
    (db : BudgetDatabase) (issued : List TokenBudgetReservation) (new : RunReservationRow)
    (credit : LivenessCredit) (row : RunBudgetRow)
    → RunLedger db issued
    → db.budgets new.run_id ≡ some row
    → row.used_total_tokens
        + row.reserved_tokens
        + (new.reserved_input_tokens + new.reserved_output_tokens)
      ≤ row.total_budget_tokens
    → find_issued new.reservation_id issued ≡ none
    → find_row new.reservation_id db.reservations ≡ none
    → RunLedger (write_reservation new credit row db) (returned new ∷ issued)
unfolding outstanding reservation_ids
write-RunLedger db issued new credit row v found enough fresh absent =
    let a = v.accounts new.run_id row found in
    let required = new.reserved_input_tokens + new.reserved_output_tokens in
    let next : RunBudgetRow = record row {
      reserved_tokens = row.reserved_tokens + required;
      status =
          status_for (row.used_total_tokens + row.reserved_tokens + required)
            row.total_budget_tokens;
    } in
    record {
      unique = ground (
        arith,
        v.unique,
        elem-reservation_ids new.reservation_id (holds_of db.reservations),
        absent-holds_of new.reservation_id db.reservations absent,
      );
      known = λ id other h. ground (arith, v.known id other);
      started = λ id r h. ground (arith, v.started id r);
      backed =
          RunBacked-with_row new.run_id next db.budgets db.reservations (new ∷ db.reservations)
            (λ o h. ground arith) v.backed;
      accounts =
          RunAccounts-with_row new.run_id next db.budgets db.reservations (new ∷ db.reservations)
            (λ o h. ground arith) v.accounts
            (record {
              reserved = ground (arith, a.reserved, nat_eq_iff new.run_id new.run_id);
              shape = a.shape;
              within = omega (arith, enough);
            });
    }
