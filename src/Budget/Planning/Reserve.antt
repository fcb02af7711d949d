-- ===== src/Budget/Planning/Reserve.antt =====
-- backend/app/persistence/planning_budget.py: what reserve does, and that it keeps the accounts of the
-- launches.
use muti_agent.Prelude.{
  ℕ, ◌+◌, ◌==◌, Nat_eq, nat_eq_iff, Bool-cases, Option-cases, false, none, some, List, ◌∷◌, ◌≡◌,
  ◌≤◌, ◌<◌, inl, inr, ◌⊎◌, refl, suc, leb, ltb, arith, subst,
}
use muti_agent.Result.{ok, err}
use muti_agent.Lease.{Uuid}
use muti_agent.Budget.{status_for}
use muti_agent.Budget.Planning.{
  PlanningRow, PlanningReservation, PlanningDatabase, PlanningError, find_budget, find_reservation,
  bad_values, budget_missing, attempts_used, budget_spent, integrity_error, reserve,
  write_reservation,
}
use muti_agent.Budget.Planning.Tables.{outstanding, reservation_ids, elem-reservation_ids}
use muti_agent.Budget.Planning.Ledger.{
  Ledger, issue, same_launches, Accounts-update, Backed-update, fresh-stored,
}

-- A call of reserve that returns.
abbrev pub Reserved : Uuid → Uuid → ℕ → ℕ → PlanningDatabase → PlanningRow → Type 0
Reserved id launch input output db old =
    (1 ≤ output)
    × (find_budget launch db.budgets ≡ some old)
    × (suc old.attempt_count ≤ old.max_attempts)
    × (old.used_total_tokens + old.reserved_tokens + (input + output) ≤ old.total_budget_tokens)
    × (find_reservation id db.reservations ≡ none)

module _ (id launch : Uuid) (input output : ℕ) (db : PlanningDatabase) where
  abbrev pub reserved_row : PlanningReservation
  reserved_row = record {
    reservation_id = id;
    launch_id = launch;
    reserved_input_tokens = input;
    reserved_output_tokens = output;
  }

  abbrev pub written : PlanningRow → PlanningDatabase
  written old =
      write_reservation id launch input output
        (status_for (old.used_total_tokens + old.reserved_tokens + (input + output))
          old.total_budget_tokens)
        db

  pub reserve-eq :
      (old : PlanningRow)
      → Reserved id launch input output db old
      → reserve id launch input output db ≡ (written old, ok reserved_row)
  unfolding reserve
  reserve-eq old (some_output, found, calls, enough, fresh) = ground arith

  pub reserve-cases :
      ((old : PlanningRow) × Reserved id launch input output db old)
      ⊎ ((e : PlanningError) × (reserve id launch input output db ≡ (db, err e)))
  unfolding reserve
  reserve-cases = elim (Bool-cases (ltb output 1)) [
    | inl bad ↦ inr (bad_values, ground arith)
    | inr some_output ↦ elim (Option-cases (find_budget launch db.budgets)) [
      | inl missing ↦ inr (budget_missing, ground arith)
      | inr (old, found) ↦ elim (Bool-cases (leb old.max_attempts old.attempt_count)) [
        | inl used ↦ inr (attempts_used, ground arith)
        | inr calls ↦
            elim (Bool-cases (
              ltb old.total_budget_tokens
                (old.used_total_tokens + old.reserved_tokens + (input + output)))) [
                  | inl spent ↦ inr (budget_spent, ground arith)
                  | inr enough ↦ elim (Option-cases (find_reservation id db.reservations)) [
                    | inr (row, stored) ↦ inr (integrity_error, ground arith)
                    | inl fresh ↦
                        inl (old, (ground arith, found, ground arith, ground arith, fresh))
                  ]
                ]
      ]
    ]
  ]

-- reserve on a launch that can pay.
write-Ledger :
    (db : PlanningDatabase) (issued : List PlanningReservation) (id launch : Uuid)
    (input output : ℕ) (old : PlanningRow)
    → Ledger db issued
    → find_budget launch db.budgets ≡ some old
    → find_reservation id issued ≡ none
    → leb old.max_attempts old.attempt_count ≡ false
    → ltb old.total_budget_tokens (old.used_total_tokens + old.reserved_tokens + (input + output))
      ≡ false
    → Ledger
        (write_reservation id launch input output
          (status_for
            (old.used_total_tokens + old.reserved_tokens + (input + output))
            old.total_budget_tokens)
          db)
        (record {
          reservation_id = id;
          launch_id = launch;
          reserved_input_tokens = input;
          reserved_output_tokens = output;
        }
          ∷ issued)
unfolding reservation_ids outstanding
write-Ledger db issued id launch input output old v found fresh calls enough =
    let status =
      status_for (old.used_total_tokens + old.reserved_tokens + (input + output))
        old.total_budget_tokens in
    let change : PlanningRow → PlanningRow = λ row. record row {
      reserved_tokens = row.reserved_tokens + (input + output);
      attempt_count = suc row.attempt_count;
      status = status;
    } in
    let new : PlanningReservation = record {
      reservation_id = id;
      launch_id = launch;
      reserved_input_tokens = input;
      reserved_output_tokens = output;
    } in
    let a = v.accounts launch old found in
    record {
      unique = ground (
        arith,
        v.unique,
        elem-reservation_ids id db.reservations,
        fresh-stored db issued id v fresh,
      );
      known = λ other row h. ground (arith, v.known other row);
      launched = λ other row h. ground (
        arith,
        v.launched other row,
        same_launches launch change (λ r. refl) db.budgets old found row.launch_id,
        nat_eq_iff launch row.launch_id,
      );
      backed =
          Backed-update launch change (λ r. refl) db.budgets old found db.reservations
            (new ∷ db.reservations) (λ other h. ground arith) v.backed;
      accounts =
          Accounts-update launch change (λ r. refl) db.budgets old found db.reservations
            (new ∷ db.reservations) (λ other h. ground arith) v.accounts
            (record {
              reserved = ground (arith, a.reserved, nat_eq_iff launch launch);
              shape = a.shape;
              within = ground (arith, a.within);
              attempts = ground (arith, a.attempts);
              some_tokens = a.some_tokens;
              some_attempts = a.some_attempts;
            });
    }

pub reserve-Ledger :
    (db : PlanningDatabase) (issued : List PlanningReservation) (id launch : Uuid)
    (input output : ℕ)
    → Ledger db issued
    → find_reservation id issued ≡ none
    → Ledger
        (reserve id launch input output db).0
        (issue (reserve id launch input output db).1 issued)
reserve-Ledger db issued id launch input output v fresh =
    elim (reserve-cases id launch input output db) [
      | inr (e, refused) ↦ rw (refused) v
      | inl (old, can) ↦ rw (reserve-eq id launch input output db old can) (
          write-Ledger db issued id launch input output old v can.1 fresh (ground arith)
            (ground arith))
    ]

-- For a known launch and a new identifier: reserve returns the reservation and stores it if some
-- output is asked for, an attempt is left and the tokens fit behind the used and reserved ones;
-- and in all other cases it raises and the database stays as it was, the status of the launch
-- included.
pub reserve_iff :
    (id launch : Uuid) (input output : ℕ) (db : PlanningDatabase) (old : PlanningRow)
    → find_budget launch db.budgets ≡ some old
    → find_reservation id db.reservations ≡ none
    → ((1 ≤ output)
        × (suc old.attempt_count ≤ old.max_attempts)
        × (old.used_total_tokens + old.reserved_tokens + (input + output) ≤ old.total_budget_tokens)
        × (reserve id launch input output db
            ≡ (written id launch input output db old, ok (reserved_row id launch input output db))))
      ⊎ (((output ≡ 0)
            ⊎ (old.max_attempts ≤ old.attempt_count)
            ⊎ (old.total_budget_tokens
                < old.used_total_tokens + old.reserved_tokens + (input + output)))
          × ((e : PlanningError) × (reserve id launch input output db ≡ (db, err e))))
reserve_iff id launch input output db old found fresh =
    elim (reserve-cases id launch input output db) [
      | inl (same, can) ↦
          let this : same ≡ old = ground (arith, can.1, found) in
          let again : Reserved id launch input output db old =
            subst (λ row. Reserved id launch input output db row) this can in
          inl (again.0, again.2, again.3, reserve-eq id launch input output db old again)
      | inr (e, refused) ↦ elim (Bool-cases (output == 0)) [
        | inl nothing ↦ inr (inl (ground arith), (e, refused))
        | inr something ↦ elim (Bool-cases (leb old.max_attempts old.attempt_count)) [
          | inl used ↦ inr (inr (inl (ground arith)), (e, refused))
          | inr calls ↦
              elim (Bool-cases (
                ltb old.total_budget_tokens
                  (old.used_total_tokens + old.reserved_tokens + (input + output)))) [
                    | inl spent ↦ inr (inr (inr (ground arith)), (e, refused))
                    | inr enough ↦
                        let done =
                          reserve-eq id launch input output db old
                            (ground arith, found, ground arith, ground arith, fresh) in
                        absurd (ground (arith, done, refused))
                  ]
        ]
      ]
    ]
