-- ===== src/Provisioning/Flows.antt =====
-- One login at a time in webui/browser_provisioning.py, and when it succeeds.
use google_find_my_tools_web.Prelude.{arith, refl, true, if◌then◌else◌, none, ◌↔◌}
use google_find_my_tools_web.Provisioning.{
  false, ◌≡◌, Bool, done, active, returned, Flow, key_phase, sign_in_phase, final_phase, State,
  init, start, teardown, on_shutdown, Step, started, progressed, ended, stopped, Reachable,
  at_start, step,
}

final_phase-inactive : (flow : Flow) → active (final_phase flow) ≡ false
unfolding active final_phase sign_in_phase key_phase
final_phase-inactive flow = ground arith

abbrev Alone : State → Type 0
Alone s = s.stopping ≡ false → s.flows ≡ (if active s.phase then 1 else 0)

start-Alone : (demo_mode : Bool) (s : State) → Alone s → Alone (start demo_mode s).1
unfolding start active
start-Alone demo_mode s a = ground arith

stepped-Alone : (s s' : State) → Step s s' → Alone s → Alone s'
stepped-Alone s _ (started demo_mode) a = start-Alone demo_mode s a
stepped-Alone s _ (progressed phase p h) a = λ going. ground (arith, a)
stepped-Alone s _ (ended flow unclean h) a =
    unfold teardown in λ going. ground (arith, final_phase-inactive flow, a)
stepped-Alone s _ (stopped unclean) a = unfold on_shutdown in λ going. ground arith

-- Whatever starts and ends of logins follow each other, until the server shuts down one flow is
-- running while the phase is an active one, and none otherwise.
flows-alone :
    (s : State) → Reachable s → s.stopping ≡ false → s.flows ≡ (if active s.phase then 1 else 0)
flows-alone _ at_start going = unfold init active in refl
flows-alone _ (step s s' r t) going = stepped-Alone s s' t (flows-alone s r) going

-- A login ends as a success exactly if the browser came up, the sign-in left both tokens, and the
-- shared key was retrieved.
pub final_phase-done :
    (flow : Flow)
    → (final_phase flow ≡ done) ↔ (
        (flow.stack_error ≡ none)
        × (flow.sign_in ≡ returned)
        × (flow.account_signed_in ≡ true)
        × (flow.shared_key ≡ returned)
        × (flow.shared_key_cached ≡ true))
unfolding final_phase sign_in_phase key_phase
final_phase-done flow = ground arith
