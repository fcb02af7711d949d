-- ===== src/Budget/Planning/Promises.antt =====
-- backend/app/persistence/planning_budget.py: what one call promises the calls after it.
use muti_agent.Prelude.{
  ℕ, suc, ◌+◌, ◌==◌, Nat_eq, nat_eq_iff, Bool, Option-cases, true, false, ◌&&◌, Option, none, some,
  List, [], ◌∷◌, ◌≡◌, ◌≤◌, inl, inr, refl, arith, distinct, elem, length,
}
use muti_agent.Result.{ok, err}
use muti_agent.Lease.{Uuid, is_none}
use muti_agent.Budget.{TokenUsage, status_for}
use muti_agent.Budget.Planning.{
  PlanningRow, PlanningReservation, PlanningDatabase, find_budget, update_budget, find_reservation,
  reserve, ensure_capacity, has_capacity, finish, linked_elsewhere,
}
use muti_agent.Budget.Planning.Links.{link_to_run, row_usage, find_launch, no_usage}
use muti_agent.Budget.Planning.Tables.{find_budget-update, find_reservation-delete}
use muti_agent.Budget.Planning.Reserve.{reserve-eq, written, reserved_row}

-- The calls of a planning: the identifier of each reservation, its input and its output.
abbrev pub PlannedCall : Type 0
PlannedCall = Uuid × ℕ × ℕ

abbrev pub call_ids : List PlannedCall → List Uuid
call_ids [] = []
call_ids ((id, input, output) ∷ calls) = id ∷ call_ids calls

abbrev pub call_tokens : List PlannedCall → ℕ
call_tokens [] = 0
call_tokens ((id, input, output) ∷ calls) = input + output + call_tokens calls

abbrev pub AllOutput : List PlannedCall → Type 0
AllOutput [] = Unit {0}
AllOutput ((id, input, output) ∷ calls) = (1 ≤ output) × AllOutput calls

-- The reservations are made one after another, and each of them returns.
pub data AllReserved (launch : Uuid) : List PlannedCall → PlanningDatabase → Type 0 where
  no_more : (db : PlanningDatabase) → AllReserved launch [] db
  one_more :
      (id : Uuid) (input output : ℕ) (calls : List PlannedCall) (db after : PlanningDatabase)
      (reservation : PlanningReservation)
      → reserve id launch input output db ≡ (after, ok reservation)
      → AllReserved launch calls after
      → AllReserved launch ((id, input, output) ∷ calls) db

unfoldable pub all_fresh : List Uuid → List PlanningReservation → Bool
all_fresh [] stored = true
all_fresh (id ∷ ids) stored = is_none (find_reservation id stored) && all_fresh ids stored

all_fresh-cons :
    (ids : List Uuid) (row : PlanningReservation) (stored : List PlanningReservation)
    → elem row.reservation_id ids ≡ false
    → all_fresh ids stored ≡ true
    → all_fresh ids (row ∷ stored) ≡ true
unfolding all_fresh
all_fresh-cons [] row stored n h = refl
all_fresh-cons (id ∷ ids) row stored n h = ground (arith, all_fresh-cons ids row stored)

covers :
    (launch : Uuid) (calls : List PlannedCall) (db : PlanningDatabase) (row : PlanningRow)
    → find_budget launch db.budgets ≡ some row
    → row.used_total_tokens + row.reserved_tokens + call_tokens calls ≤ row.total_budget_tokens
    → row.attempt_count + length calls ≤ row.max_attempts
    → AllOutput calls
    → distinct (call_ids calls) ≡ true
    → all_fresh (call_ids calls) db.reservations ≡ true
    → AllReserved launch calls db
unfolding all_fresh
covers launch [] db row found enough count outputs d fresh = no_more db
covers launch ((id, input, output) ∷ calls) db row found enough count outputs d fresh =
    let new_status =
      status_for (row.used_total_tokens + row.reserved_tokens + (input + output))
        row.total_budget_tokens in
    let change : PlanningRow → PlanningRow = λ old. record old {
      reserved_tokens = old.reserved_tokens + (input + output);
      attempt_count = suc old.attempt_count;
      status = new_status;
    } in
    one_more id input output calls db (written id launch input output db row)
      (reserved_row id launch input output db)
      (reserve-eq id launch input output db row
        (outputs.0, found, ground arith, ground arith, ground arith))
      (covers launch calls (written id launch input output db row) (change row)
        (find_budget-update launch change db.budgets row (λ old. refl) found)
        (omega (arith, enough)) (omega (arith, count)) outputs.1 (ground arith)
        (all_fresh-cons (call_ids calls) (reserved_row id launch input output db) db.reservations
          (ground arith) (ground arith)))

capacity :
    (launch : Uuid) (tokens calls : ℕ) (db : PlanningDatabase)
    → (ensure_capacity launch tokens calls db).1 ≡ ok tt
    → (row : PlanningRow) × (find_budget launch db.budgets ≡ some row)
      × (has_capacity row tokens calls ≡ true)
      × (1 ≤ tokens)
      × (1 ≤ calls)
unfolding ensure_capacity
capacity launch tokens calls db h = elim (Option-cases (find_budget launch db.budgets)) [
  | inl missing ↦ absurd (ground arith)
  | inr (row, found) ↦ (row, found, ground arith, ground arith, ground arith)
]

-- When ensure_capacity returned for a number of tokens and of calls, any list of calls with
-- distinct new identifiers and some output each, that takes no more tokens and is no longer, can
-- be reserved one after another: each reserve returns.
pub ensure_capacity-covers :
    (launch : Uuid) (tokens count : ℕ) (calls : List PlannedCall) (db : PlanningDatabase)
    → (ensure_capacity launch tokens count db).1 ≡ ok tt
    → call_tokens calls ≤ tokens
    → length calls ≤ count
    → AllOutput calls
    → distinct (call_ids calls) ≡ true
    → all_fresh (call_ids calls) db.reservations ≡ true
    → AllReserved launch calls db
ensure_capacity-covers launch tokens count calls db h within many outputs d fresh =
    let (row, found, can, some_tokens, some_calls) = capacity launch tokens count db h in
    covers launch calls db row found (ground arith) (ground arith) outputs d fresh

finish-ok-absent :
    (r : PlanningReservation) (usage : Option TokenUsage) (db next : PlanningDatabase)
    → finish r usage db ≡ (next, ok tt)
    → find_reservation r.reservation_id next.reservations ≡ none
unfolding finish
finish-ok-absent r usage db next h =
    elim (Option-cases (find_reservation r.reservation_id db.reservations)) [
      | inl gone ↦ ground arith
      | inr (row, here) ↦ elim (Option-cases (find_budget r.launch_id db.budgets)) [
        | inl missing ↦ absurd (ground arith)
        | inr (old, found) ↦
            ground (arith, find_reservation-delete r.reservation_id db.reservations)
      ]
    ]

-- When settle or cancel returned for a reservation, a second settle or cancel of it, with any
-- usage, returns and changes nothing.
pub finish-twice :
    (r : PlanningReservation) (first second : Option TokenUsage) (db next : PlanningDatabase)
    → finish r first db ≡ (next, ok tt)
    → finish r second next ≡ (next, ok tt)
unfolding finish
finish-twice r first second db next h = ground (arith, finish-ok-absent r first db next h)

module _ (launch run : Uuid) where
  link-first :
      (db next : PlanningDatabase) (row : PlanningRow) (usage : TokenUsage)
      → find_budget launch db.budgets ≡ some row
      → row.run_id ≡ none
      → link_to_run launch run db ≡ (next, ok usage)
      → (next.budgets ≡ update_budget launch (λ old. record old { run_id = some run }) db.budgets)
        × (usage ≡ row_usage row)
  unfolding link_to_run
  link-first db next row usage found free h = elim (Option-cases (find_launch run db.budgets)) [
    | inl alone ↦ (ground arith, ground arith)
    | inr (taken, here) ↦ absurd (ground arith)
  ]

  link-same :
      (db : PlanningDatabase) (row : PlanningRow)
      → find_budget launch db.budgets ≡ some row
      → row.run_id ≡ some run
      → link_to_run launch run db ≡ (db, ok no_usage)
  unfolding link_to_run
  link-same db row found there = ground (arith, nat_eq_iff run run)

  link-other :
      (other : Uuid) (db : PlanningDatabase) (row : PlanningRow)
      → find_budget launch db.budgets ≡ some row
      → row.run_id ≡ some run
      → (run == other) ≡ false
      → link_to_run launch other db ≡ (db, err linked_elsewhere)
  unfolding link_to_run
  link-other other db row found there differ = ground arith

-- When link_to_run returns for a launch without a run, the usage is that of the launch; calling
-- it again for that run returns zero usage and changes nothing, and for any other run it raises
-- and changes nothing.
pub link_to_run-once :
    (launch run other : Uuid) (db next : PlanningDatabase) (usage : TokenUsage) (row : PlanningRow)
    → find_budget launch db.budgets ≡ some row
    → row.run_id ≡ none
    → link_to_run launch run db ≡ (next, ok usage)
    → (run == other) ≡ false
    → (usage ≡ row_usage row)
      × (link_to_run launch run next ≡ (next, ok no_usage))
      × (link_to_run launch other next ≡ (next, err linked_elsewhere))
link_to_run-once launch run other db next usage row found free h differ =
    let (e, paid) = link-first launch run db next row usage found free h in
    let change : PlanningRow → PlanningRow = λ old. record old { run_id = some run } in
    let linked : find_budget launch next.budgets ≡ some (change row) =
      ground (arith, e, find_budget-update launch change db.budgets row (λ old. refl) found) in
    (
      paid,
      link-same launch run next (change row) linked refl,
      link-other launch run other next (change row) linked refl differ,
    )
