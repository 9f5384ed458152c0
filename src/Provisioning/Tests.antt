-- ===== src/Provisioning/Tests.antt =====
-- A run of browser_provisioning.py.
use google_find_my_tools_web.Prelude.{refl}
use google_find_my_tools_web.Provisioning.{
  error, true, false, none, [], ◌≡◌, active, returned, Flow, final_phase, init, start, teardown,
  on_shutdown, started, Reachable, at_start, step,
}

program : Unit {0}
unfolding active final_phase init start teardown on_shutdown
program = tt

abbrev success : Flow
success = record {
  stack_error = none;
  sign_in = returned;
  account_signed_in = true;
  shared_key = returned;
  shared_key_cached = true;
}

second_refused : (start false (start false init).1).0 ≡ false
unfolding program
second_refused = refl

again : (start false (teardown (final_phase success) [] (start false init).1)).0 ≡ true
unfolding program
again = refl

cut_off : (on_shutdown [] (start false init).1).phase ≡ error
unfolding program
cut_off = refl

first_login : Reachable (start false init).1
first_login = step init _ at_start (started false)

going_on : (start false init).1.stopping ≡ false
unfolding program
going_on = refl
