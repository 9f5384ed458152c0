-- ===== src/Provisioning.antt =====
-- webui/browser_provisioning.py: the phases of the web login, without the texts that go with them.
-- What webui/browser_stack.py, the sign-in and the shared-key flow do is the course of a flow.
pub mod Flows
mod Tests
use google_find_my_tools_web.Prelude.{
  none, ◌≤◌, ◌+◌, ◌≡◌, ◌||◌, false, true, ℕ, ◌-◌, some, if◌then◌else◌, Bool, String, Option, [],
  List,
}

pub data Phase : Type 0 where
  idle starting installing downloading extracting launching ready logging_in done timeout error :
      Phase

-- `_ACTIVE_PHASES`
pub active : Phase → Bool
active idle = false
active done = false
active timeout = false
active error = false
active _ = true

pub data Attempt : Type 0 where
  returned timed_out : Attempt
  raised : String → Attempt

-- The course of one `_run_flow`: what went wrong with the browser stack, if anything; how
-- `get_aas_token` ended, and whether both tokens are cached then; the same for the shared key.
pub record Flow : Type 0 where
  pub stack_error : Option String
  pub sign_in : Attempt
  pub account_signed_in : Bool
  pub shared_key : Attempt
  pub shared_key_cached : Bool

key_phase : Attempt → Bool → Phase
key_phase returned cached = if cached then done else timeout
key_phase timed_out cached = timeout
key_phase (raised e) cached = error

sign_in_phase : Attempt → Flow → Phase
unfolding key_phase
sign_in_phase returned flow =
    if flow.account_signed_in then key_phase flow.shared_key flow.shared_key_cached else timeout
sign_in_phase timed_out flow = timeout
sign_in_phase (raised e) flow = error

-- The phase that `_run_flow` hands to `_teardown`.
pub final_phase : Flow → Phase
unfolding sign_in_phase
final_phase flow = elim flow.stack_error [ some e ↦ error | none ↦ sign_in_phase flow.sign_in flow ]

-- `_state`, with the names that the last teardown had to kill, the flows that are running, and
-- whether the server is shutting down.
pub record State : Type 0 where
  pub phase : Phase
  pub unclean : List String
  pub flows : ℕ
  pub stopping : Bool

pub init : State
init = record { phase = idle; unclean = []; flows = 0; stopping = false }

-- `start`: whether it started a flow, and the state.
pub start : (demo_mode : Bool) → State → Bool × State
unfolding active
start demo_mode s =
    if demo_mode || active s.phase
    then (false, s)
    else (true, record s { phase = starting; unclean = []; flows = s.flows + 1 })

-- `_teardown`, called by a flow.
pub teardown : Phase → (unclean : List String) → State → State
teardown final_phase unclean s = record s {
  phase = final_phase;
  unclean = unclean;
  flows = s.flows - 1;
}

-- `on_shutdown`
pub on_shutdown : (unclean : List String) → State → State
unfolding active
on_shutdown unclean s =
    if active s.phase
    then record s { phase = error; unclean = unclean; stopping = true }
    else record s { stopping = true }

pub data Step (s : State) : State → Type 0 where
  started : (demo_mode : Bool) → Step s (start demo_mode s).1
  progressed :
      (phase : Phase) → active phase ≡ true → 1 ≤ s.flows → Step s (record s { phase = phase })
  ended :
      (flow : Flow) (unclean : List String)
      → 1 ≤ s.flows
      → Step s (teardown (final_phase flow) unclean s)
  stopped : (unclean : List String) → Step s (on_shutdown unclean s)

pub data Reachable : State → Type 0 where
  at_start : Reachable init
  step : (s s' : State) → Reachable s → Step s s' → Reachable s'
