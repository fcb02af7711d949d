-- ===== src/Budget/Planning/Ledger.antt =====
-- backend/app/persistence/planning_budget.py: the accounts of the launches, over any sequence of
-- calls of the store.
use muti_agent.Prelude.{
  ℕ, ◌+◌, ◌==◌, Nat_eq, nat_eq_iff, Bool-cases, Option-cases, true, false, Option, none, some, List,
  ◌∷◌, ◌≡◌, ◌≤◌, inl, inr, sym, arith, distinct,
}
use muti_agent.Result.{Result, ok, err}
use muti_agent.Lease.{Uuid, is_none}
use muti_agent.Budget.{TokenUsage, actual_usage}
use muti_agent.Budget.Planning.{
  PlanningRow, PlanningReservation, PlanningDatabase, PlanningError, find_budget, update_budget,
  find_reservation,
}
use muti_agent.Budget.Planning.Tables.{
  outstanding, reservation_ids, find_budget-update, find_budget-other,
}

-- A launch whose outstanding reservations hold `held` tokens.
pub record IsAccount (row : PlanningRow) (held : ℕ) : Type 0 where
  pub reserved : row.reserved_tokens ≡ held
  pub shape : row.used_total_tokens ≡ row.used_prompt_tokens + row.used_completion_tokens
  pub within : row.used_total_tokens + row.reserved_tokens ≤ row.total_budget_tokens
  pub attempts : row.attempt_count ≤ row.max_attempts
  pub some_tokens : 1 ≤ row.total_budget_tokens
  pub some_attempts : 1 ≤ row.max_attempts

abbrev pub Accounts : List PlanningRow → List PlanningReservation → Type 0
Accounts budgets reservations =
    (launch : Uuid) (row : PlanningRow)
    → find_budget launch budgets ≡ some row
    → IsAccount row (outstanding launch reservations)

abbrev pub Backed : List PlanningRow → List PlanningReservation → Type 0
Backed budgets reservations =
    (launch : Uuid)
    → is_none (find_budget launch budgets) ≡ true
    → outstanding launch reservations ≡ 0

-- The database and the reservations that reserve has returned so far.
pub record Ledger (db : PlanningDatabase) (issued : List PlanningReservation) : Type 0 where
  pub unique : distinct (reservation_ids db.reservations) ≡ true
  pub known :
      (id : Uuid) (row : PlanningReservation)
      → find_reservation id db.reservations ≡ some row
      → find_reservation id issued ≡ some row
  pub launched :
      (id : Uuid) (row : PlanningReservation)
      → find_reservation id issued ≡ some row
      → is_none (find_budget row.launch_id db.budgets) ≡ false
  pub backed : Backed db.budgets db.reservations
  pub accounts : Accounts db.budgets db.reservations

abbrev pub issue :
    Result PlanningError PlanningReservation → List PlanningReservation → List PlanningReservation
issue (ok reservation) issued = reservation ∷ issued
issue (err e) issued = issued

-- The tokens of the usage are no more than those of the reservation.
abbrev pub Fits : PlanningReservation → Option TokenUsage → Type 0
Fits r usage =
    (actual_usage usage r.reserved_input_tokens r.reserved_output_tokens).0
      + (actual_usage usage r.reserved_input_tokens r.reserved_output_tokens).1
    ≤ r.reserved_input_tokens + r.reserved_output_tokens

module _ (launch : Uuid) (change : PlanningRow → PlanningRow)
    (keeps : (row : PlanningRow) → (change row).launch_id ≡ row.launch_id)
    (budgets : List PlanningRow) (old : PlanningRow)
    (found : find_budget launch budgets ≡ some old) where
  pub same_launches :
      (other : Uuid)
      → is_none (find_budget other (update_budget launch change budgets))
        ≡ is_none (find_budget other budgets)
  same_launches other = ground (
    arith,
    find_budget-update launch change budgets old keeps found,
    find_budget-other launch change other budgets keeps,
    nat_eq_iff launch other,
  )

  module _ (before after : List PlanningReservation)
      (apart : (other : Uuid)
        → (launch == other) ≡ false
        → outstanding other after ≡ outstanding other before) where
    pub Accounts-update :
        Accounts budgets before
        → IsAccount (change old) (outstanding launch after)
        → Accounts (update_budget launch change budgets) after
    Accounts-update accounts account other row h = elim (Bool-cases (launch == other)) [
      | inl same ↦
          let e : launch ≡ other = ground (arith, nat_eq_iff launch other) in
          let now = find_budget-update launch change budgets old keeps found in
          let this : change old ≡ row = ground arith in rw (sym this, sym e) account
      | inr differ ↦
          let kept =
            accounts other row
              (ground (arith, find_budget-other launch change other budgets keeps)) in
          rw (apart other differ) kept
    ]

    pub Backed-update : Backed budgets before → Backed (update_budget launch change budgets) after
    Backed-update backed other h = elim (Bool-cases (launch == other)) [
      | inl same ↦ ground (arith, same_launches other, nat_eq_iff launch other)
      | inr differ ↦ ground (arith, apart other differ, backed other, same_launches other)
    ]

-- A fresh reservation is not stored either.
pub fresh-stored :
    (db : PlanningDatabase) (issued : List PlanningReservation) (id : Uuid)
    → Ledger db issued
    → find_reservation id issued ≡ none
    → find_reservation id db.reservations ≡ none
fresh-stored db issued id v fresh = elim (Option-cases (find_reservation id db.reservations)) [
  | inl absent ↦ absent
  | inr (row, here) ↦ let e = v.known id row here in cc
]
