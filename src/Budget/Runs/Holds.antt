-- ===== src/Budget/Runs/Holds.antt =====
-- backend/app/persistence/token_budget.py: the reservations of a run as holds on its tokens, which
-- are added up and deleted like those of a launch.
use muti_agent.Prelude.{
  sym, ℕ, ◌+◌, ◌==◌, Nat_eq, nat_eq_iff, true, false, Option, none, some, List, [], ◌∷◌, map, ◌≡◌,
  ◌≤◌, refl, arith, Bool-cases, inl, inr, if◌then◌else◌,
}
use muti_agent.Lease.{Uuid, is_none}
use muti_agent.Budget.Planning.{PlanningReservation, find_reservation, delete_reservation}
use muti_agent.Budget.Planning.Tables.{outstanding}
use muti_agent.Budget.Runs.{RunReservationRow, RunBudgetRow, find_row, delete_row}

abbrev pub hold : RunReservationRow → PlanningReservation
hold row = record {
  reservation_id = row.reservation_id;
  launch_id = row.run_id;
  reserved_input_tokens = row.reserved_input_tokens;
  reserved_output_tokens = row.reserved_output_tokens;
}

abbrev pub holds_of : List RunReservationRow → List PlanningReservation
holds_of rows = map hold rows

pub find-holds_of :
    (id : Uuid) (rows : List RunReservationRow) (row : RunReservationRow)
    → find_row id rows ≡ some row
    → find_reservation id (holds_of rows) ≡ some (hold row)
find-holds_of id [] row h = cc
find-holds_of id (first ∷ rows) row h = ground (arith, find-holds_of id rows row)

pub absent-holds_of :
    (id : Uuid) (rows : List RunReservationRow)
    → find_row id rows ≡ none
    → find_reservation id (holds_of rows) ≡ none
absent-holds_of id [] h = refl
absent-holds_of id (first ∷ rows) h = ground (arith, absent-holds_of id rows)

pub holds_of-delete :
    (id : Uuid) (rows : List RunReservationRow)
    → holds_of (delete_row id rows) ≡ delete_reservation id (holds_of rows)
holds_of-delete id [] = refl
holds_of-delete id (first ∷ rows) = ground (arith, holds_of-delete id rows)

pub find_row-delete :
    (id : Uuid) (rows : List RunReservationRow) → find_row id (delete_row id rows) ≡ none
find_row-delete id [] = refl
find_row-delete id (first ∷ rows) = ground (arith, find_row-delete id rows)

pub find_row-delete_other :
    (id other : Uuid) (rows : List RunReservationRow)
    → (id == other) ≡ false
    → find_row other (delete_row id rows) ≡ find_row other rows
find_row-delete_other id other [] h = refl
find_row-delete_other id other (first ∷ rows) h = ground (
  arith,
  find_row-delete_other id other rows h,
  nat_eq_iff first.reservation_id id,
  nat_eq_iff first.reservation_id other,
)

-- A run whose outstanding reservations hold `held` tokens.
pub record IsRunAccount (row : RunBudgetRow) (held : ℕ) : Type 0 where
  pub reserved : row.reserved_tokens ≡ held
  pub shape : row.used_total_tokens ≡ row.used_prompt_tokens + row.used_completion_tokens
  pub within : row.used_total_tokens + row.reserved_tokens ≤ row.total_budget_tokens

abbrev pub RunAccounts : (Uuid → Option RunBudgetRow) → List RunReservationRow → Type 0
RunAccounts budgets rows =
    (run : Uuid) (row : RunBudgetRow)
    → budgets run ≡ some row
    → IsRunAccount row (outstanding run (holds_of rows))

abbrev pub RunBacked : (Uuid → Option RunBudgetRow) → List RunReservationRow → Type 0
RunBacked budgets rows =
    (run : Uuid) → is_none (budgets run) ≡ true → outstanding run (holds_of rows) ≡ 0

abbrev pub with_row :
    Uuid → RunBudgetRow → (Uuid → Option RunBudgetRow) → Uuid → Option RunBudgetRow
with_row run row budgets r = if r == run then some row else budgets r

module _ (run : Uuid) (row : RunBudgetRow) (budgets : Uuid → Option RunBudgetRow)
    (before after : List RunReservationRow)
    (apart : (other : Uuid)
      → (run == other) ≡ false
      → outstanding other (holds_of after) ≡ outstanding other (holds_of before)) where
  pub RunAccounts-with_row :
      RunAccounts budgets before
      → IsRunAccount row (outstanding run (holds_of after))
      → RunAccounts (with_row run row budgets) after
  RunAccounts-with_row accounts account other found h = elim (Bool-cases (run == other)) [
    | inl same ↦
        let e : run ≡ other = ground (arith, nat_eq_iff run other) in
        let this : row ≡ found = ground (arith, nat_eq_iff other run) in
        rw (sym this, sym e) account
    | inr differ ↦
        let kept =
          accounts other found (ground (arith, nat_eq_iff other run, nat_eq_iff run other)) in
        rw (apart other differ) kept
  ]

  pub RunBacked-with_row : RunBacked budgets before → RunBacked (with_row run row budgets) after
  RunBacked-with_row backed other h =
      ground (arith, apart other, backed other, nat_eq_iff other run, nat_eq_iff run other)
