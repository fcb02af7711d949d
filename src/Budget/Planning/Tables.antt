-- ===== src/Budget/Planning/Tables.antt =====
-- backend/app/persistence/planning_budget.py: lookups behind the updates of the two tables, and the
-- sum of the outstanding reservations of a launch.
use muti_agent.Prelude.{
  ℕ, ◌+◌, ◌==◌, Nat_eq, nat_eq_iff, true, false, not, none, some, List, [], ◌∷◌, if◌then◌else◌, ◌≡◌,
  refl, arith, elem, distinct,
}
use muti_agent.Lease.{Uuid, is_none}
use muti_agent.Budget.Planning.{
  PlanningRow, PlanningReservation, find_budget, update_budget, find_reservation,
  delete_reservation,
}

-- The tokens that the reservations of a launch hold.
unfoldable pub outstanding : Uuid → List PlanningReservation → ℕ
outstanding launch [] = 0
outstanding launch (row ∷ rows) =
    if row.launch_id == launch
    then row.reserved_input_tokens + row.reserved_output_tokens + outstanding launch rows
    else outstanding launch rows

pub find_budget-launch_id :
    (launch : Uuid) (rows : List PlanningRow) (row : PlanningRow)
    → find_budget launch rows ≡ some row
    → row.launch_id ≡ launch
find_budget-launch_id launch [] row h = cc
find_budget-launch_id launch (first ∷ rows) row h =
    ground (arith, find_budget-launch_id launch rows row, nat_eq_iff first.launch_id launch)

pub find_reservation-reservation_id :
    (id : Uuid) (rows : List PlanningReservation) (row : PlanningReservation)
    → find_reservation id rows ≡ some row
    → row.reservation_id ≡ id
find_reservation-reservation_id id [] row h = cc
find_reservation-reservation_id id (first ∷ rows) row h =
    ground (arith, find_reservation-reservation_id id rows row, nat_eq_iff first.reservation_id id)

module _ (launch : Uuid) (change : PlanningRow → PlanningRow) where
  pub find_budget-update :
      (rows : List PlanningRow) (row : PlanningRow)
      → ((old : PlanningRow) → (change old).launch_id ≡ old.launch_id)
      → find_budget launch rows ≡ some row
      → find_budget launch (update_budget launch change rows) ≡ some (change row)
  find_budget-update [] row keeps h = cc
  find_budget-update (first ∷ rows) row keeps h =
      ground (arith, find_budget-update rows row keeps, keeps first)

  pub find_budget-other :
      (other : Uuid) (rows : List PlanningRow)
      → ((old : PlanningRow) → (change old).launch_id ≡ old.launch_id)
      → (launch == other) ≡ false
      → find_budget other (update_budget launch change rows) ≡ find_budget other rows
  find_budget-other other [] keeps h = refl
  find_budget-other other (first ∷ rows) keeps h = ground (
    arith,
    find_budget-other other rows keeps h,
    keeps first,
    nat_eq_iff first.launch_id launch,
    nat_eq_iff first.launch_id other,
  )

pub find_reservation-delete :
    (id : Uuid) (rows : List PlanningReservation)
    → find_reservation id (delete_reservation id rows) ≡ none
find_reservation-delete id [] = refl
find_reservation-delete id (first ∷ rows) = ground (arith, find_reservation-delete id rows)

pub find_reservation-delete_other :
    (id other : Uuid) (rows : List PlanningReservation)
    → (id == other) ≡ false
    → find_reservation other (delete_reservation id rows) ≡ find_reservation other rows
find_reservation-delete_other id other [] h = refl
find_reservation-delete_other id other (first ∷ rows) h = ground (
  arith,
  find_reservation-delete_other id other rows h,
  nat_eq_iff first.reservation_id id,
  nat_eq_iff first.reservation_id other,
)

unfoldable pub reservation_ids : List PlanningReservation → List Uuid
reservation_ids [] = []
reservation_ids (row ∷ rows) = row.reservation_id ∷ reservation_ids rows

pub elem-reservation_ids :
    (id : Uuid) (rows : List PlanningReservation)
    → elem id (reservation_ids rows) ≡ not (is_none (find_reservation id rows))
unfolding reservation_ids
elem-reservation_ids id [] = refl
elem-reservation_ids id (first ∷ rows) = ground (
  arith,
  elem-reservation_ids id rows,
  nat_eq_iff first.reservation_id id,
  nat_eq_iff id first.reservation_id,
)

outstanding-delete_absent :
    (launch id : Uuid) (rows : List PlanningReservation)
    → find_reservation id rows ≡ none
    → outstanding launch (delete_reservation id rows) ≡ outstanding launch rows
unfolding outstanding
outstanding-delete_absent launch id [] h = refl
outstanding-delete_absent launch id (first ∷ rows) h =
    ground (arith, outstanding-delete_absent launch id rows)

-- Deleting a reservation takes its tokens from the sum of its launch, and from no other.
pub outstanding-delete :
    (launch id : Uuid) (rows : List PlanningReservation) (row : PlanningReservation)
    → distinct (reservation_ids rows) ≡ true
    → find_reservation id rows ≡ some row
    → outstanding launch rows
      ≡ (if row.launch_id == launch
          then row.reserved_input_tokens + row.reserved_output_tokens
          else 0)
        + outstanding launch (delete_reservation id rows)
unfolding outstanding reservation_ids
outstanding-delete launch id [] row d h = cc
outstanding-delete launch id (first ∷ rows) row d h = ground (
  arith,
  outstanding-delete launch id rows row,
  outstanding-delete_absent launch id rows,
  elem-reservation_ids id rows,
  nat_eq_iff first.reservation_id id,
)

pub distinct-delete :
    (id : Uuid) (rows : List PlanningReservation)
    → distinct (reservation_ids rows) ≡ true
    → distinct (reservation_ids (delete_reservation id rows)) ≡ true
unfolding reservation_ids
distinct-delete id [] d = refl
distinct-delete id (first ∷ rows) d = ground (
  arith,
  distinct-delete id rows,
  find_reservation-delete_other id first.reservation_id rows,
  elem-reservation_ids first.reservation_id rows,
  elem-reservation_ids first.reservation_id (delete_reservation id rows),
  nat_eq_iff first.reservation_id id,
  nat_eq_iff id first.reservation_id,
)
