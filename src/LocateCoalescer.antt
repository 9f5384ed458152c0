-- ===== src/LocateCoalescer.antt =====
-- webui/locate_coalescer.py: the single flight of locates per device, as the steps of one event loop.
-- A task that has finished runs its done callback in a later step. Task numbers are never reused.
pub mod Flights
mod Tests
use google_find_my_tools_web.Prelude.{
  none, ◌+◌, false, some, ◌==◌, true, ◌≡◌, Option, if◌then◌else◌, Bool, ℕ, String, [], nat_eq,
  string_eq, option_eq,
}
use google_find_my_tools_web.Prelude.Dict.{Dict, lookup, insert, erase}

-- A fetch that was started for a key and whose callback has not run.
pub record Task : Type 0 where
  pub key : String
  pub finished : Bool

pub record Coalescer : Type 0 where
  pub inflight : Dict String ℕ
  pub tasks : Dict ℕ Task
  pub next : ℕ

pub init : Coalescer
init = record { inflight = []; tasks = []; next = 0 }

join_or_start : String → Option ℕ → Coalescer → ℕ × Coalescer
join_or_start key (some task) c = (task, c)
join_or_start key none c = (
  c.next,
  record {
    inflight = insert key c.next c.inflight;
    tasks = insert c.next (record { key = key; finished = false }) c.tasks;
    next = c.next + 1;
  },
)

-- The task that the caller waits for.
pub get_or_fetch : String → Coalescer → ℕ × Coalescer
unfolding join_or_start
get_or_fetch key c = join_or_start key (lookup key c.inflight) c

pub finish : ℕ → Task → Coalescer → Coalescer
finish id task c = record c { tasks = insert id (record task { finished = true }) c.tasks }

-- `_clear`, the done callback.
pub clear : ℕ → Task → Coalescer → Coalescer
clear id task c = record c {
  inflight =
      if lookup task.key c.inflight == some id then erase task.key c.inflight else c.inflight;
  tasks = erase id c.tasks;
}

-- The event loop: a call, the end of a fetch, a callback.
pub data Step (c : Coalescer) : Coalescer → Type 0 where
  called : (key : String) → Step c (get_or_fetch key c).1
  ended :
      (id : ℕ) (task : Task)
      → lookup id c.tasks ≡ some task
      → task.finished ≡ false
      → Step c (finish id task c)
  called_back :
      (id : ℕ) (task : Task)
      → lookup id c.tasks ≡ some task
      → task.finished ≡ true
      → Step c (clear id task c)

pub data Reachable : Coalescer → Type 0 where
  start : Reachable init
  step : (c c' : Coalescer) → Reachable c → Step c c' → Reachable c'
