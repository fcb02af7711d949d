-- ===== src/Budget/Planning/Session.antt =====
-- backend/app/persistence/planning_budget.py: what holds after any calls of the store.
use muti_agent.Prelude.{
  ℕ, ◌==◌, Nat_eq, nat_eq_iff, Bool, Option-cases, Bool-cases, true, Option, none, some, List, [],
  ◌∷◌, ◌≡◌, ◌≤◌, inl, inr, ◌⊎◌, ◌||◌, refl, arith, sym,
}
use muti_agent.Result.{ok}
use muti_agent.Lease.{Uuid, is_none}
use muti_agent.Budget.{TokenUsage}
use muti_agent.Budget.Planning.{
  PlanningRow, PlanningReservation, PlanningDatabase, find_budget, update_budget, find_reservation,
  initialize, reserve, finish, new_row,
}
use muti_agent.Budget.Planning.Links.{link_to_run, row_usage, find_launch}
use muti_agent.Budget.Planning.Tables.{outstanding, reservation_ids}
use muti_agent.Budget.Planning.Ledger.{
  IsAccount, Ledger, issue, Fits, same_launches, Accounts-update, Backed-update,
}
use muti_agent.Budget.Planning.Settle.{finish-Ledger}
use muti_agent.Budget.Planning.Reserve.{reserve-Ledger}

-- Calls of the store, one after another, from empty tables: the database and the reservations that
-- were returned. A usage that is settled is no more than what was reserved, and uuid4 gives no
-- identifier twice.
pub data Session : PlanningDatabase → List PlanningReservation → Type 0 where
  empty : Session (record { budgets = []; reservations = [] }) []
  initialized :
      {db : PlanningDatabase} {issued : List PlanningReservation}
      → Session db issued
      → (total attempts : ℕ) (launch project : Uuid) (thinking : Bool)
      → Session (initialize total attempts launch project thinking db).0 issued
  reserved :
      {db : PlanningDatabase} {issued : List PlanningReservation}
      → Session db issued
      → (id launch : Uuid) (input output : ℕ) → find_reservation id issued ≡ none
      → Session
          (reserve id launch input output db).0
          (issue (reserve id launch input output db).1 issued)
  finished :
      {db : PlanningDatabase} {issued : List PlanningReservation}
      → Session db issued
      → (r : PlanningReservation) (usage : Option TokenUsage)
      → find_reservation r.reservation_id issued ≡ some r
      → Fits r usage
      → Session (finish r usage db).0 issued
  linked :
      {db : PlanningDatabase} {issued : List PlanningReservation}
      → Session db issued
      → (launch run : Uuid) → Session (link_to_run launch run db).0 issued

initialize-cases :
    (total attempts : ℕ) (launch project : Uuid) (thinking : Bool) (db : PlanningDatabase)
    → ((is_none (find_budget launch db.budgets) ≡ true)
        × (1 ≤ total)
        × (1 ≤ attempts)
        × (initialize total attempts launch project thinking db ≡ (
          record db { budgets = new_row launch project total attempts thinking ∷ db.budgets },
          ok tt,
        )))
      ⊎ ((initialize total attempts launch project thinking db).0 ≡ db)
unfolding initialize
initialize-cases total attempts launch project thinking db =
    elim (Bool-cases (total == 0 || attempts == 0)) [
      | inl bad ↦ inr (ground arith)
      | inr good ↦ elim (Bool-cases (is_none (find_budget launch db.budgets))) [
        | inl absent ↦ inl (absent, ground arith, ground arith, ground arith)
        | inr there ↦ inr (ground arith)
      ]
    ]

link-cases :
    (launch run : Uuid) (db : PlanningDatabase)
    → ((old : PlanningRow) × (find_budget launch db.budgets ≡ some old)
        × (old.run_id ≡ none)
        × (find_launch run db.budgets ≡ none)
        × (link_to_run launch run db ≡ (
          record db {
            budgets = update_budget launch (λ row. record row { run_id = some run }) db.budgets;
          },
          ok (row_usage old),
        )))
      ⊎ ((link_to_run launch run db).0 ≡ db)
unfolding link_to_run
link-cases launch run db = elim (Option-cases (find_budget launch db.budgets)) [
  | inl missing ↦ inr (ground arith)
  | inr (old, found) ↦ elim (Option-cases old.run_id) [
    | inr (existing, h) ↦ inr (ground arith)
    | inl free ↦ elim (Option-cases (find_launch run db.budgets)) [
      | inl alone ↦ inl (old, found, free, alone, ground arith)
      | inr (other, taken) ↦ inr (ground arith)
    ]
  ]
]

module _ (db : PlanningDatabase) (issued : List PlanningReservation) (v : Ledger db issued) where
  added-Ledger :
      (launch project : Uuid) (total attempts : ℕ) (thinking : Bool)
      → is_none (find_budget launch db.budgets) ≡ true
      → 1 ≤ total
      → 1 ≤ attempts
      → Ledger
          (record db { budgets = new_row launch project total attempts thinking ∷ db.budgets })
          issued
  added-Ledger launch project total attempts thinking absent t a = record {
    unique = v.unique;
    known = v.known;
    launched = λ id row h. ground (arith, v.launched id row h);
    backed = λ other h. ground (arith, v.backed other);
    accounts = λ other row h. elim (Bool-cases (launch == other)) [
      | inl same ↦
          let this : new_row launch project total attempts thinking ≡ row = ground arith in
          rw (sym this) (record {
            reserved = ground (arith, v.backed other, nat_eq_iff launch other);
            shape = refl;
            within = ground arith;
            attempts = ground arith;
            some_tokens = t;
            some_attempts = a;
          })
      | inr differ ↦ v.accounts other row (ground arith)
    ];
  }

  initialize-Ledger :
      (total attempts : ℕ) (launch project : Uuid) (thinking : Bool)
      → Ledger (initialize total attempts launch project thinking db).0 issued
  initialize-Ledger total attempts launch project thinking =
      elim (initialize-cases total attempts launch project thinking db) [
        | inl (absent, t, a, e) ↦
            rw e (added-Ledger launch project total attempts thinking absent t a)
        | inr same ↦ rw same v
      ]

  linked_row-Ledger :
      (launch run : Uuid) (old : PlanningRow)
      → find_budget launch db.budgets ≡ some old
      → Ledger
          (record db {
            budgets = update_budget launch (λ row. record row { run_id = some run }) db.budgets;
          })
          issued
  linked_row-Ledger launch run old found =
      let change : PlanningRow → PlanningRow = λ row. record row { run_id = some run } in
      let a = v.accounts launch old found in
      record {
        unique = v.unique;
        known = v.known;
        launched = λ id row h. ground (
          arith,
          v.launched id row h,
          same_launches launch change (λ x. refl) db.budgets old found row.launch_id,
        );
        backed =
            Backed-update launch change (λ x. refl) db.budgets old found db.reservations
              db.reservations (λ other h. refl) v.backed;
        accounts =
            Accounts-update launch change (λ x. refl) db.budgets old found db.reservations
              db.reservations (λ other h. refl) v.accounts
              (record {
                reserved = a.reserved;
                shape = a.shape;
                within = a.within;
                attempts = a.attempts;
                some_tokens = a.some_tokens;
                some_attempts = a.some_attempts;
              });
      }

  link-Ledger : (launch run : Uuid) → Ledger (link_to_run launch run db).0 issued
  link-Ledger launch run = elim (link-cases launch run db) [
    | inl (old, found, free, alone, e) ↦ rw e (linked_row-Ledger launch run old found)
    | inr same ↦ rw same v
  ]

-- After any calls, the reservations that are stored were returned, and each launch has an account.
pub Session-Ledger :
    (db : PlanningDatabase) (issued : List PlanningReservation)
    → Session db issued
    → Ledger db issued
unfolding outstanding reservation_ids
Session-Ledger _ _ empty = record {
  unique = refl;
  known = λ id row h. cc;
  launched = λ id row h. cc;
  backed = λ launch h. refl;
  accounts = λ launch row h. cc;
}
Session-Ledger _ _ (initialized {db} {issued} s total attempts launch project thinking) =
    initialize-Ledger db issued (Session-Ledger db issued s) total attempts launch project thinking
Session-Ledger _ _ (reserved {db} {issued} s id launch input output fresh) =
    reserve-Ledger db issued id launch input output (Session-Ledger db issued s) fresh
Session-Ledger _ _ (finished {db} {issued} s r usage mine fits) =
    let (next, e, v) = finish-Ledger db issued r usage (Session-Ledger db issued s) mine fits in
    rw e v
Session-Ledger _ _ (linked {db} {issued} s launch run) =
    link-Ledger db issued (Session-Ledger db issued s) launch run

-- After any calls of initialize, reserve, settle, cancel and link_to_run from empty tables,
-- where uuid4 repeats no identifier of a returned reservation, only returned reservations are
-- settled or cancelled and the usage settled on one is no more than it reserved: for each
-- launch, the reserved tokens are the sum over its outstanding reservations, the used tokens are
-- prompt and completion tokens together, used and reserved tokens never exceed the total, and
-- the attempts never exceed their maximum.
pub Session-IsAccount :
    (db : PlanningDatabase) (issued : List PlanningReservation)
    → Session db issued
    → (launch : Uuid) (row : PlanningRow) → find_budget launch db.budgets ≡ some row
    → IsAccount row (outstanding launch db.reservations)
Session-IsAccount db issued s launch row h = (Session-Ledger db issued s).accounts launch row h
