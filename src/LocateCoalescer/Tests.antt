-- ===== src/LocateCoalescer/Tests.antt =====
-- A run of locate_coalescer.py, and its theorems at concrete inputs: a second call for a device
-- joins the first one.
use google_find_my_tools_web.Prelude.{refl, ◌≡◌, nat_eq, string_eq, option_eq}
use google_find_my_tools_web.Prelude.Dict.{lookup, insert, erase}
use google_find_my_tools_web.LocateCoalescer.{
  ℕ, some, [], true, false, Task, init, get_or_fetch, finish, clear, called, Reachable, start, step,
}
use google_find_my_tools_web.LocateCoalescer.Flights.{single_flight}

program : Unit {0}
unfolding lookup insert erase init get_or_fetch finish clear
program = tt

abbrev flying : Task
flying = record { key = "tag"; finished = false }

first_call : Reachable (get_or_fetch "tag" init).1
first_call = step init _ start (called "tag")

in_the_air : lookup 0 (get_or_fetch "tag" init).1.tasks ≡ some flying
unfolding program
in_the_air = refl

-- Behind the callback, the slot is free again.
landed :
    (clear 0
      (record flying { finished = true })
      (finish 0 flying (get_or_fetch "tag" init).1)).inflight
    ≡ []
unfolding program
landed = refl

single_flight_example : ◌≡◌ {A = ℕ} 0 0
single_flight_example =
    single_flight (get_or_fetch "tag" init).1 first_call 0 0 flying flying in_the_air in_the_air
      refl
