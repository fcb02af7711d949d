-- ===== src/Scheduler/State.antt =====
-- The states of a scheduled task, and the table of the transitions between them.
use muti_agent.Prelude.{◌≡◌, ◌↔◌, refl, Bool, true, false, Eq, arith}

pub data TaskScheduleState : Type 0 where
  pending ready running succeeded failed blocked : TaskScheduleState

abbrev pub same_state : TaskScheduleState → TaskScheduleState → Bool
same_state pending pending = true
same_state ready ready = true
same_state running running = true
same_state succeeded succeeded = true
same_state failed failed = true
same_state blocked blocked = true
same_state _ _ = false

same_state_refl : (s : TaskScheduleState) → same_state s s ≡ true
same_state_refl pending = refl
same_state_refl ready = refl
same_state_refl running = refl
same_state_refl succeeded = refl
same_state_refl failed = refl
same_state_refl blocked = refl

pub same_state_iff : (s t : TaskScheduleState) → (same_state s t ≡ true) ↔ (s ≡ t)
same_state_iff s t = ground (arith, same_state_refl s)

instance abbrev pub State_eq : Eq TaskScheduleState
State_eq = record { beq = same_state; beq_iff = same_state_iff }

-- _ALLOWED_TRANSITIONS
abbrev pub allowed : TaskScheduleState → TaskScheduleState → Bool
allowed pending ready = true
allowed pending blocked = true
allowed ready running = true
allowed running succeeded = true
allowed running failed = true
allowed _ _ = false

-- _TERMINAL_STATES
abbrev pub is_terminal_state : TaskScheduleState → Bool
is_terminal_state succeeded = true
is_terminal_state failed = true
is_terminal_state blocked = true
is_terminal_state _ = false
