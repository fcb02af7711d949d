-- ===== src/Tests/Budgets.antt =====
-- backend/app/persistence/planning_budget.py: one launch of 100 tokens and two calls.
use muti_agent.Prelude.{ℕ, ◌+◌, ◌≤◌, ◌<◌, ◌≡◌, ◌⊎◌, refl, arith, true, false, none, some, [], ◌∷◌}
use muti_agent.Result.{ok, err}
use muti_agent.Budget.{TokenUsage, status_for, actual_usage}
use muti_agent.Budget.Planning.{
  PlanningRow, PlanningReservation, PlanningDatabase, PlanningError, find_budget, find_reservation,
  initialize, reserve, ensure_capacity, finish, linked_elsewhere, budget_spent,
}
use muti_agent.Budget.Planning.Links.{
  link_to_run, row_usage, no_usage, snapshot, snapshot_for_run, validate_usage,
}
use muti_agent.Budget.Planning.Tables.{outstanding}
use muti_agent.Budget.Planning.Ledger.{IsAccount}
use muti_agent.Budget.Planning.Reserve.{reserve_iff, written, reserved_row}
use muti_agent.Budget.Planning.Session.{
  Session, empty, initialized, reserved, finished, Session-IsAccount,
}
use muti_agent.Budget.Planning.Promises.{
  AllReserved, all_fresh, ensure_capacity-covers, finish-twice, link_to_run-once,
}

store : Unit {0}
unfolding initialize reserve ensure_capacity finish link_to_run snapshot snapshot_for_run
    validate_usage status_for actual_usage outstanding all_fresh
store = tt

abbrev no_launches : PlanningDatabase
no_launches = record { budgets = []; reservations = [] }

abbrev usage : TokenUsage
usage = record { prompt_tokens = 40; completion_tokens = 10; total_tokens = 50 }

abbrev launch_row : ℕ → ℕ → ℕ → ℕ → ℕ → PlanningRow
launch_row prompt completion held attempts used = record {
  launch_id = 7;
  project_id = 1;
  run_id = none;
  total_budget_tokens = 100;
  used_prompt_tokens = prompt;
  used_completion_tokens = completion;
  used_total_tokens = used;
  reserved_tokens = held;
  attempt_count = attempts;
  max_attempts = 2;
  enable_thinking = false;
  status = status_for (used + held) 100;
}

abbrev first_call : PlanningReservation
first_call = record {
  reservation_id = 5;
  launch_id = 7;
  reserved_input_tokens = 60;
  reserved_output_tokens = 10;
}

launched : PlanningDatabase
launched = (initialize 100 2 7 1 false no_launches).0

-- After a call that reserved 70 tokens.
waiting : PlanningDatabase
unfolding launched
waiting = (reserve 5 7 60 10 launched).0

-- After that call was settled.
settled : PlanningDatabase
unfolding waiting
settled = (finish first_call (some usage) waiting).0

waiting-Session : Session waiting (first_call ∷ [])
unfolding store launched waiting
waiting-Session = reserved (initialized empty 100 2 7 1 false) 5 7 60 10 refl

settled-Session : Session settled (first_call ∷ [])
unfolding store launched waiting settled
settled-Session = finished waiting-Session first_call (some usage) refl (omega arith)

find_budget-waiting : find_budget 7 waiting.budgets ≡ some (launch_row 0 0 70 1 0)
unfolding store launched waiting
find_budget-waiting = refl

find_budget-settled : find_budget 7 settled.budgets ≡ some (launch_row 40 10 0 1 50)
unfolding store launched waiting settled
find_budget-settled = refl

Session-IsAccount_example : IsAccount (launch_row 0 0 70 1 0) (outstanding 7 waiting.reservations)
Session-IsAccount_example =
    Session-IsAccount waiting (first_call ∷ []) waiting-Session 7 (launch_row 0 0 70 1 0)
      find_budget-waiting

find_reservation-settled : find_reservation 6 settled.reservations ≡ none
unfolding store launched waiting settled
find_reservation-settled = refl

reserve_iff_example :
    ((1 ≤ 20)
      × (2 ≤ 2)
      × (50 + 0 + (40 + 20) ≤ 100)
      × (reserve 6 7 40 20 settled ≡ (
        written 6 7 40 20 settled (launch_row 40 10 0 1 50),
        ok (reserved_row 6 7 40 20 settled),
      )))
    ⊎ ((◌≡◌ {A = ℕ} 20 0 ⊎ (2 ≤ 1) ⊎ (100 < 50 + 0 + (40 + 20)))
        × ((e : PlanningError) × (reserve 6 7 40 20 settled ≡ (settled, err e))))
reserve_iff_example =
    reserve_iff 6 7 40 20 settled (launch_row 40 10 0 1 50) find_budget-settled
      find_reservation-settled

-- A launch that is refused for lack of tokens does not become EXHAUSTED.
reserve-refused : reserve 6 7 40 20 settled ≡ (settled, err budget_spent)
unfolding store launched waiting settled
reserve-refused = refl

capacity-settled : (ensure_capacity 7 50 1 settled).1 ≡ ok tt
unfolding store launched waiting settled
capacity-settled = refl

all_fresh-settled : all_fresh (6 ∷ []) settled.reservations ≡ true
unfolding store launched waiting settled
all_fresh-settled = refl

ensure_capacity-covers_example : AllReserved 7 ((6, 30, 20) ∷ []) settled
ensure_capacity-covers_example =
    ensure_capacity-covers 7 50 1 ((6, 30, 20) ∷ []) settled capacity-settled (omega arith)
      (omega arith) (omega arith, tt) refl all_fresh-settled

finish-waiting : finish first_call (some usage) waiting ≡ (settled, ok tt)
unfolding store launched waiting settled
finish-waiting = refl

finish-twice_example : finish first_call none settled ≡ (settled, ok tt)
finish-twice_example = finish-twice first_call (some usage) none waiting settled finish-waiting

linked : PlanningDatabase
unfolding settled
linked = (link_to_run 7 3 settled).0

link_to_run-settled : link_to_run 7 3 settled ≡ (linked, ok (row_usage (launch_row 40 10 0 1 50)))
unfolding store launched waiting settled linked
link_to_run-settled = refl

link_to_run-once_example :
    (row_usage (launch_row 40 10 0 1 50) ≡ row_usage (launch_row 40 10 0 1 50))
    × (link_to_run 7 3 linked ≡ (linked, ok no_usage))
    × (link_to_run 7 4 linked ≡ (linked, err linked_elsewhere))
link_to_run-once_example =
    link_to_run-once 7 3 4 settled linked (row_usage (launch_row 40 10 0 1 50))
      (launch_row 40 10 0 1 50) find_budget-settled refl link_to_run-settled refl
