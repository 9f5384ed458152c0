-- ===== src/Scheduler/Tasks.antt =====
-- The polling tasks of webui/scheduler.py, by device.
mod Tests
use google_find_my_tools_web.Prelude.{
  arith, ◌&&◌, not, none, ◌∷◌, some, ◌==◌, List, [], if◌then◌else◌, true, ◌≡◌, false, String,
  Option, Bool, string_eq, eq_iff,
}
use google_find_my_tools_web.Prelude.Dict.{Dict, lookup, insert, erase, lookup-insert, lookup-erase}
use google_find_my_tools_web.Device.{DeviceConfig}

-- How far a task has come.
pub data TaskState : Type 0 where
  polling finished cancelled : TaskState
  crashed : String → TaskState

pub has_endpoints : Option DeviceConfig → Bool
has_endpoints none = false
has_endpoints (some device_cfg) = elim device_cfg.endpoints [
  | [] ↦ false
  | endpoint ∷ endpoints ↦ true
]

-- `restart_device`, for what `config_store.get_device_config` returns.
pub restart_device :
    (demo_mode : Bool)
    → String
    → Option DeviceConfig
    → Dict String TaskState
    → Dict String TaskState
unfolding has_endpoints
restart_device demo_mode canonic_id device_cfg tasks =
    let rest = erase canonic_id tasks in
    if demo_mode
    then rest
    else if has_endpoints device_cfg
    then insert canonic_id polling rest
    else rest

pub start_all :
    (demo_mode : Bool)
    → List (String × DeviceConfig)
    → Dict String TaskState
    → Dict String TaskState
unfolding restart_device
start_all demo_mode [] tasks = tasks
start_all demo_mode ((canonic_id, device_cfg) ∷ devices) tasks =
    start_all demo_mode devices (restart_device demo_mode canonic_id (some device_cfg) tasks)

pub stop_all : Dict String TaskState → Dict String TaskState
stop_all tasks = []

has_crashed : TaskState → Bool
has_crashed (crashed e) = true
has_crashed _ = false

pub dead_tasks : Dict String TaskState → List String
unfolding has_crashed
dead_tasks [] = []
dead_tasks ((canonic_id, task) ∷ tasks) =
    let rest = dead_tasks tasks in if has_crashed task then canonic_id ∷ rest else rest

-- After a restart of a device, it has a new task if it has endpoints and the app is not in demo
-- mode, and none otherwise; the tasks of the other devices stay.
pub lookup-restart_device :
    (demo_mode : Bool) (canonic_id j : String) (device_cfg : Option DeviceConfig)
    (tasks : Dict String TaskState)
    → lookup j (restart_device demo_mode canonic_id device_cfg tasks) ≡ (
        if canonic_id == j
        then (if not demo_mode && has_endpoints device_cfg then some polling else none)
        else lookup j tasks)
unfolding restart_device
lookup-restart_device demo_mode canonic_id j device_cfg tasks = ground (
  arith,
  lookup-erase j canonic_id tasks,
  lookup-insert j canonic_id polling (erase canonic_id tasks),
  eq_iff canonic_id j,
)
