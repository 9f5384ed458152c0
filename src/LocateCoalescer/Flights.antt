-- ===== src/LocateCoalescer/Flights.antt =====
-- At most one flight per device in webui/locate_coalescer.py.
use google_find_my_tools_web.Prelude.{
  eq_iff, refl, ◌↔◌, arith, ◌≤◌, ◌≡◌, nat_eq, string_eq, option_eq, option_beq_iff,
}
use google_find_my_tools_web.Prelude.Dict.{lookup, lookup-insert, lookup-erase}
use google_find_my_tools_web.LocateCoalescer.{
  true, false, Option, some, none, ℕ, String, Task, Coalescer, init, join_or_start, get_or_fetch,
  finish, clear, Step, called, ended, called_back, Reachable, start, step,
}

key_of : Option Task → Option String
key_of none = none
key_of (some task) = some task.key

-- A key's slot holds exactly the task that was started for it, and the next number is unused.
record IsPaired (c : Coalescer) : Type 0 where
  paired :
      (key : String) (id : ℕ)
      → (lookup key c.inflight ≡ some id) ↔ (key_of (lookup id c.tasks) ≡ some key)
  unused : (id : ℕ) → c.next ≤ id → lookup id c.tasks ≡ none

start-IsPaired :
    (key : String) (c : Coalescer)
    → lookup key c.inflight ≡ none
    → IsPaired c
    → IsPaired (join_or_start key none c).1
unfolding join_or_start key_of
start-IsPaired key c free p = record {
  paired = λ k i. ground (
    arith,
    p.paired k i,
    p.paired k c.next,
    p.paired key i,
    p.unused c.next,
    lookup-insert k key c.next c.inflight,
    lookup-insert i c.next (record { key = key; finished = false }) c.tasks,
    eq_iff key k,
  );
  unused = λ i h.
      ground (
        arith,
        p.unused i,
        lookup-insert i c.next (record { key = key; finished = false }) c.tasks,
      );
}

finish-IsPaired :
    (id : ℕ) (t : Task) (c : Coalescer)
    → lookup id c.tasks ≡ some t
    → IsPaired c
    → IsPaired (finish id t c)
unfolding finish key_of
finish-IsPaired id t c e p = record {
  paired = λ k i.
      ground (arith, p.paired k i, lookup-insert i id (record t { finished = true }) c.tasks);
  unused = λ i h.
      ground
        (arith, p.unused i, p.unused id, lookup-insert i id (record t { finished = true }) c.tasks);
}

clear-IsPaired :
    (id : ℕ) (t : Task) (c : Coalescer)
    → lookup id c.tasks ≡ some t
    → IsPaired c
    → IsPaired (clear id t c)
unfolding clear key_of
clear-IsPaired id t c e p = record {
  paired = λ k i. ground (
    arith,
    p.paired k i,
    p.paired t.key id,
    p.paired t.key i,
    p.paired k id,
    option_beq_iff (lookup t.key c.inflight) (some id),
    lookup-erase k t.key c.inflight,
    lookup-erase i id c.tasks,
    eq_iff t.key k,
  );
  unused = λ i h. ground (arith, p.unused i, lookup-erase i id c.tasks);
}

call-IsPaired : (key : String) (c : Coalescer) → IsPaired c → IsPaired (get_or_fetch key c).1
unfolding get_or_fetch
call-IsPaired key c p = call_at (lookup key c.inflight) refl
  where
    call_at :
        (slot : Option ℕ) → lookup key c.inflight ≡ slot → IsPaired (join_or_start key slot c).1
    call_at none e = start-IsPaired key c e p
    call_at (some id) e = unfold join_or_start in p

stepped-IsPaired : (c c' : Coalescer) → Step c c' → IsPaired c → IsPaired c'
stepped-IsPaired c _ (called key) p = call-IsPaired key c p
stepped-IsPaired c _ (ended id task e f) p = finish-IsPaired id task c e p
stepped-IsPaired c _ (called_back id task e f) p = clear-IsPaired id task c e p

reachable-IsPaired : (c : Coalescer) → Reachable c → IsPaired c
reachable-IsPaired _ start =
    unfold init lookup key_of in record { paired = λ k i. ground arith; unused = λ i h. refl }
reachable-IsPaired _ (step c c' r s) = stepped-IsPaired c c' s (reachable-IsPaired c r)

-- However calls, ends of fetches and callbacks follow each other, two fetches for one device whose
-- callbacks have not run are the same fetch.
pub single_flight :
    (c : Coalescer)
    → Reachable c
    → (i j : ℕ) (t u : Task) → lookup i c.tasks ≡ some t
    → lookup j c.tasks ≡ some u
    → t.key ≡ u.key
    → i ≡ j
unfolding key_of
single_flight c r i j t u e f same =
    let p = reachable-IsPaired c r in ground (arith, p.paired t.key i, p.paired u.key j)

-- A call while a fetch for its device is under way, or its callback has not run, waits for that
-- fetch and starts none.
call-joins :
    (c : Coalescer)
    → Reachable c
    → (id : ℕ) (t : Task) → lookup id c.tasks ≡ some t
    → get_or_fetch t.key c ≡ (id, c)
unfolding get_or_fetch join_or_start key_of
call-joins c r id t e =
    let held : lookup t.key c.inflight ≡ some id =
      ((reachable-IsPaired c r).paired t.key id).1 (rw e) in
    rw held
