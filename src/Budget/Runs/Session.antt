-- ===== src/Budget/Runs/Session.antt =====
-- backend/app/persistence/token_budget.py: what holds after any calls of initialize, reserve, settle,
-- cancel and record_usage.
use muti_agent.Prelude.{
  ℕ, ◌+◌, String, ◌==◌, Nat_eq, nat_eq_iff, true, false, Option, none, some, List, [], ◌≡◌, ◌≤◌,
  refl, sym, arith, Bool-cases, inl, inr,
}
use muti_agent.Lease.{Uuid}
use muti_agent.Budget.{exhausted, TokenUsage}
use muti_agent.Budget.Planning.Tables.{outstanding, reservation_ids}
use muti_agent.Budget.Runs.Shares.{AgentRole, LivenessCredit, ShareTables}
use muti_agent.Budget.Runs.{
  recorded, RunBudgetRow, TokenBudgetReservation, BudgetDatabase, insert_budget, initialize,
  total_or, reserve, finish, with_usage, record_usage,
}
use muti_agent.Budget.Runs.Holds.{holds_of, IsRunAccount}
use muti_agent.Budget.Runs.Admission.{asked, reserve-cases}
use muti_agent.Budget.Runs.Accounts.{
  find_issued, RunLedger, issue, insert-RunLedger, status-RunLedger, write-RunLedger,
}
use muti_agent.Budget.Runs.Settle.{FitsReservation, finish-RunLedger}

reserve-RunLedger :
    (scaled : ℕ → ℕ) (default : ℕ) (id run : Uuid) (task : String) (role : AgentRole)
    (input output : ℕ) (credit : LivenessCredit) (db : BudgetDatabase)
    (issued : List TokenBudgetReservation)
    → RunLedger db issued
    → find_issued id issued ≡ none
    → RunLedger
        (reserve scaled default id run task role input output credit db).0
        (issue (reserve scaled default id run task role input output credit db).1 issued)
reserve-RunLedger scaled default id run task role input output credit db issued v fresh =
    elim (reserve-cases scaled default id run task role input output credit db) [
      | inl (row, (some_output, found, enough, absent, e)) ↦ rw e (
          write-RunLedger (insert_budget run default db) issued
            (asked scaled default id run task role input output credit db) credit row
            (insert-RunLedger db issued run default v) found enough fresh (ground (arith, absent)))
      | inr (inl (e, refused)) ↦ rw refused v
      | inr (inr exhausted_run) ↦ rw exhausted_run (status-RunLedger db issued run exhausted v)
    ]

initialize-RunLedger :
    (default : ℕ) (run : Uuid) (total : Option ℕ) (db : BudgetDatabase)
    (issued : List TokenBudgetReservation)
    → RunLedger db issued
    → RunLedger (initialize default run total db).0 issued
unfolding initialize
initialize-RunLedger default run total db issued v =
    insert-RunLedger db issued run (total_or total default) v

recorded-RunLedger :
    (run : Uuid) (role : AgentRole) (usage : TokenUsage) (db : BudgetDatabase)
    (issued : List TokenBudgetReservation) (old : RunBudgetRow)
    → RunLedger db issued
    → db.budgets run ≡ some old
    → usage.total_tokens ≡ usage.prompt_tokens + usage.completion_tokens
    → old.used_total_tokens + old.reserved_tokens + usage.total_tokens ≤ old.total_budget_tokens
    → RunLedger (recorded run role usage db) issued
recorded-RunLedger run role usage db issued old v found good fits = record {
  unique = v.unique;
  known = v.known;
  started = λ id r h. ground (arith, v.started id r h, nat_eq_iff r.run_id run);
  backed = λ other h. v.backed other (ground (arith, nat_eq_iff other run));
  accounts = λ other row h. elim (Bool-cases (other == run)) [
    | inr differ ↦ v.accounts other row (ground arith)
    | inl same ↦
        let e : other ≡ run = ground (arith, nat_eq_iff other run) in
        let this : with_usage usage old ≡ row = ground (arith, e, found) in
        let a = v.accounts run old found in
        rw (sym this, e)
          (record {
            reserved = a.reserved;
            shape = omega (arith, a.shape, good);
            within = omega (arith, fits);
          })
  ];
}

record_usage-refused :
    (run : Uuid) (role : AgentRole) (usage : TokenUsage) (db : BudgetDatabase)
    → (usage.total_tokens == usage.prompt_tokens + usage.completion_tokens) ≡ false
    → (record_usage run role usage db).0 ≡ db
unfolding record_usage
record_usage-refused run role usage db bad = ground arith

record_usage-kept :
    (run : Uuid) (role : AgentRole) (usage : TokenUsage) (db : BudgetDatabase)
    → (usage.total_tokens == usage.prompt_tokens + usage.completion_tokens) ≡ true
    → (record_usage run role usage db).0 ≡ recorded run role usage db
unfolding record_usage
record_usage-kept run role usage db good = ground arith

record_usage-RunLedger :
    (run : Uuid) (role : AgentRole) (usage : TokenUsage) (db : BudgetDatabase)
    (issued : List TokenBudgetReservation) (old : RunBudgetRow)
    → RunLedger db issued
    → db.budgets run ≡ some old
    → old.used_total_tokens + old.reserved_tokens + usage.total_tokens ≤ old.total_budget_tokens
    → RunLedger (record_usage run role usage db).0 issued
record_usage-RunLedger run role usage db issued old v found fits =
    elim (Bool-cases (usage.total_tokens == usage.prompt_tokens + usage.completion_tokens)) [
      | inr bad ↦ rw (record_usage-refused run role usage db bad) v
      | inl good ↦
          rw (record_usage-kept run role usage db good)
            (recorded-RunLedger run role usage db issued old v found (ground arith) fits)
    ]

-- Calls of the store, one after another, from empty tables: the database and the reservations that
-- were returned.
pub data RunSession (scaled : ℕ → ℕ) (default : ℕ)
    : BudgetDatabase → List TokenBudgetReservation → Type 0 where
  started :
      (shares : ShareTables)
      → RunSession scaled default
          (record {
            budgets = λ r. none;
            reservations = [];
            shares = shares;
            role_usage = λ r s. none;
          })
          []
  initialized :
      {db : BudgetDatabase} {issued : List TokenBudgetReservation}
      → RunSession scaled default db issued
      → (run : Uuid) (total : Option ℕ)
      → RunSession scaled default (initialize default run total db).0 issued
  reserved :
      {db : BudgetDatabase} {issued : List TokenBudgetReservation}
      → RunSession scaled default db issued
      → (id run : Uuid) (task : String) (role : AgentRole) (input output : ℕ)
        (credit : LivenessCredit)
      → find_issued id issued ≡ none
      → RunSession scaled default
          (reserve scaled default id run task role input output credit db).0
          (issue (reserve scaled default id run task role input output credit db).1 issued)
  finished :
      {db : BudgetDatabase} {issued : List TokenBudgetReservation}
      → RunSession scaled default db issued
      → (r : TokenBudgetReservation) (usage : Option TokenUsage)
      → find_issued r.reservation_id issued ≡ some r
      → FitsReservation r usage
      → RunSession scaled default (finish r usage db).0 issued
  recorded_usage :
      {db : BudgetDatabase} {issued : List TokenBudgetReservation}
      → RunSession scaled default db issued
      → (run : Uuid) (role : AgentRole) (usage : TokenUsage) (old : RunBudgetRow)
      → db.budgets run ≡ some old
      → old.used_total_tokens + old.reserved_tokens + usage.total_tokens ≤ old.total_budget_tokens
      → RunSession scaled default (record_usage run role usage db).0 issued

module _ (scaled : ℕ → ℕ) (default : ℕ) where
  RunSession-RunLedger :
      (db : BudgetDatabase) (issued : List TokenBudgetReservation)
      → RunSession scaled default db issued
      → RunLedger db issued
  unfolding outstanding reservation_ids
  RunSession-RunLedger _ _ (started shares) = record {
    unique = refl;
    known = λ id row h. cc;
    started = λ id r h. cc;
    backed = λ run h. refl;
    accounts = λ run row h. cc;
  }
  RunSession-RunLedger _ _ (initialized {db} {issued} s run total) =
      initialize-RunLedger default run total db issued (RunSession-RunLedger db issued s)
  RunSession-RunLedger _ _ (reserved {db} {issued} s id run task role input output credit fresh) =
      reserve-RunLedger scaled default id run task role input output credit db issued
        (RunSession-RunLedger db issued s) fresh
  RunSession-RunLedger _ _ (finished {db} {issued} s r usage mine fits) =
      finish-RunLedger db issued r usage (RunSession-RunLedger db issued s) mine fits
  RunSession-RunLedger _ _ (recorded_usage {db} {issued} s run role usage old found fits) =
      record_usage-RunLedger run role usage db issued old (RunSession-RunLedger db issued s) found
        fits

  -- After any calls of initialize, reserve, settle, cancel and record_usage from empty tables,
  -- with any stage and package shares, where uuid4 repeats no identifier of a returned
  -- reservation, only returned reservations are settled or cancelled, the usage settled on one
  -- is no more than it reserved and the usage recorded for a known run fits behind the used and
  -- reserved tokens: for each run the reserved tokens are the sum over its outstanding
  -- reservations, the used tokens are prompt and completion tokens together, and used and
  -- reserved tokens never exceed the total.
  pub RunSession-IsRunAccount :
      (db : BudgetDatabase) (issued : List TokenBudgetReservation)
      → RunSession scaled default db issued
      → (run : Uuid) (row : RunBudgetRow) → db.budgets run ≡ some row
      → IsRunAccount row (outstanding run (holds_of db.reservations))
  RunSession-IsRunAccount db issued s run row h =
      (RunSession-RunLedger db issued s).accounts run row h
