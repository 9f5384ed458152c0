-- ===== src/Scheduler/Tasks/Tests.antt =====
-- A run of the task table of scheduler.py.
use google_find_my_tools_web.Prelude.{refl, [], none, ◌∷◌, false, String, ◌≡◌, string_eq}
use google_find_my_tools_web.Prelude.Dict.{Dict, lookup, insert, erase}
use google_find_my_tools_web.Scheduler.Tasks.{
  TaskState, polling, finished, crashed, restart_device, has_endpoints, start_all, stop_all,
  dead_tasks,
}

program : Unit {0}
unfolding lookup insert erase restart_device has_endpoints start_all stop_all dead_tasks
program = tt

abbrev tasks : Dict String TaskState
tasks = ("a", polling) ∷ ("b", crashed "KeyError") ∷ ("c", finished) ∷ []

dead :
    (dead_tasks tasks ≡ "b" ∷ [])
    × (dead_tasks (restart_device false "b" none tasks) ≡ [])
    × (start_all false [] (stop_all tasks) ≡ [])
unfolding program
dead = (refl, refl, refl)
