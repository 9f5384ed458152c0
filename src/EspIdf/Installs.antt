-- ===== src/EspIdf/Installs.antt =====
-- The installs of esp_idf_provisioning.py, whatever is cut off.
use google_find_my_tools_web.Prelude.{
  ap, ◌≤◌, length, ℕ, zero, suc, Bool, true, false, ◌&&◌, none, some, List, [], ◌∷◌, ◌++◌, ◌≡◌, inl,
  inr, refl, arith, Bool-cases, if◌then◌else◌, All,
}
use mathlib.Core.Path.{subst}
use google_find_my_tools_web.EspIdf.{
  no_source, cloned, installed, Disk, Action, Removal, Call, half_clone, finish_clone, half_install,
  finish_install, write_marker, erode_source, erode_tools, remove_source, remove_tools, make_tools,
  remove_marker, is_provisioned, mark_used, cleanup_if_stale, source_removal, act, act_all, start,
  clone_and_install, plan, actions, provision, cut, cleanup_interrupted, interrupted, succeeds,
  eroded_source, has_idf_py, is_there, Source, half_cloned,
}
use google_find_my_tools_web.EspIdf.Interrupted.{
  Whole, Sound, Sound-later, no_marker-Whole, Clears, cleanup-Whole, cleanup_interrupted-Sound,
}

-- The actions before the clone, which make no install of what is none.
abbrev Prepares : Action → Type 0
Prepares remove_source = Unit
Prepares (erode_source keeps) = Unit
Prepares make_tools = Unit
Prepares remove_marker = Unit
Prepares _ = ⊥

eroded-none :
    (keeps : Bool) (old : Source) (marked : Bool)
    → (has_idf_py old && marked) ≡ false
    → (has_idf_py (eroded_source keeps old) && marked) ≡ false
unfolding eroded_source
eroded-none keeps no_source marked h = refl
eroded-none keeps cloned marked h = ground (arith, h)
eroded-none keeps (half_cloned idf_py) marked h = ground (arith, h)

act-none :
    (a : Action) (d : Disk)
    → Prepares a
    → is_provisioned d ≡ false
    → is_provisioned (act a d) ≡ false
unfolding act is_provisioned
act-none remove_source d p h = refl
act-none make_tools d p h = h
act-none remove_marker d p h = ground arith
act-none (erode_source keeps) d p h = eroded-none keeps d.source (is_there d.marker) h
act-none remove_tools d p h = absurd p
act-none (erode_tools keeps) d p h = absurd p
act-none finish_clone d p h = absurd p
act-none half_install d p h = absurd p
act-none finish_install d p h = absurd p
act-none (half_clone idf_py) d p h = absurd p
act-none (write_marker t) d p h = absurd p

-- A list of actions that is cut off in its first part or behind it.
cut-Whole :
    (first rest : List Action) (n : ℕ) (d : Disk)
    → All Prepares first
    → is_provisioned d ≡ false
    → ((m : ℕ) → Whole (act_all (cut m rest) (act_all first d)))
    → Whole (act_all (cut n (first ++ rest)) d)
unfolding cut act_all
cut-Whole [] rest n d p h k = k n
cut-Whole (a ∷ first) rest zero d p h k = inl h
cut-Whole (a ∷ first) rest (suc n) d (p, ps) h k =
    cut-Whole first rest n (act a d) ps (act-none a d p h) k

All-start : (source : Removal) → All Prepares (start source)
unfolding start source_removal
All-start source = elim (Bool-cases source.finishes) [
  | inl s ↦ rw s (tt, (tt, (tt, (tt, tt))))
  | inr s ↦ rw s (tt, (tt, (tt, tt)))
]

start-marker : (source : Removal) (d : Disk) → (act_all (start source) d).marker ≡ none
unfolding start source_removal act_all act
start-marker source d = elim (Bool-cases source.finishes) [ inl s ↦ rw s refl | inr s ↦ rw s refl ]

installed-Whole :
    (idf_py : Bool) (now done : ℕ) (d : Disk)
    → d.marker ≡ none
    → Whole (
        act_all
          (cut done (
            half_clone idf_py
            ∷ finish_clone
            ∷ half_install
            ∷ finish_install
            ∷ write_marker now
            ∷ []))
          d)
unfolding act_all cut act
installed-Whole idf_py now zero d e = no_marker-Whole _ e
installed-Whole idf_py now (suc zero) d e = no_marker-Whole _ e
installed-Whole idf_py now (suc (suc zero)) d e = no_marker-Whole _ e
installed-Whole idf_py now (suc (suc (suc zero))) d e = no_marker-Whole _ e
installed-Whole idf_py now (suc (suc (suc (suc zero)))) d e = no_marker-Whole _ e
installed-Whole idf_py now (suc (suc (suc (suc (suc n))))) d e = inr (refl, refl)

uninstalled-Whole :
    (idf_py : Bool) (done : ℕ) (d : Disk)
    → d.marker ≡ none
    → Whole (act_all (cut done (half_clone idf_py ∷ finish_clone ∷ half_install ∷ [])) d)
unfolding act_all cut act
uninstalled-Whole idf_py zero d e = no_marker-Whole _ e
uninstalled-Whole idf_py (suc zero) d e = no_marker-Whole _ e
uninstalled-Whole idf_py (suc (suc zero)) d e = no_marker-Whole _ e
uninstalled-Whole idf_py (suc (suc (suc n))) d e = no_marker-Whole _ e

uncloned-Whole :
    (idf_py : Bool) (done : ℕ) (d : Disk)
    → d.marker ≡ none
    → Whole (act_all (cut done (half_clone idf_py ∷ [])) d)
unfolding act_all cut act
uncloned-Whole idf_py zero d e = no_marker-Whole _ e
uncloned-Whole idf_py (suc n) d e = no_marker-Whole _ e

-- By whether what was left is removed, and whether the clone and the install succeed.
cases-Whole :
    (removes clones installs idf_py : Bool) (now done : ℕ) (d : Disk)
    → d.marker ≡ none
    → Whole (
        act_all
          (cut done (
            if removes
            then half_clone idf_py
              ∷ (if clones
                  then finish_clone
                    ∷ half_install
                    ∷ (if installs then finish_install ∷ write_marker now ∷ [] else [])
                  else [])
            else []))
          d)
unfolding cut act_all
cases-Whole false clones installs idf_py now done d e = no_marker-Whole d e
cases-Whole true false installs idf_py now done d e = uncloned-Whole idf_py done d e
cases-Whole true true false idf_py now done d e = uninstalled-Whole idf_py done d e
cases-Whole true true true idf_py now done d e = installed-Whole idf_py now done d e

clone_and_install-Whole :
    (call : Call) (done : ℕ) (d : Disk)
    → d.marker ≡ none
    → Whole (act_all (cut done (clone_and_install call)) d)
unfolding clone_and_install
clone_and_install-Whole call done d e =
    cases-Whole call.source.finishes (succeeds call.clone) (succeeds call.install) call.idf_py
      call.now done d e

plan-Whole :
    (call : Call) (done : ℕ) (d : Disk)
    → is_provisioned d ≡ false
    → Whole (act_all (cut done (plan call)) d)
unfolding plan
plan-Whole call done d h =
    cut-Whole (start call.source) (clone_and_install call) done d (All-start call.source) h
      (λ m. clone_and_install-Whole call m _ (start-marker call.source d))

cut_all : (actions : List Action) (n : ℕ) → length actions ≤ n → cut n actions ≡ actions
unfolding cut
cut_all [] n h = refl
cut_all (a ∷ actions) zero h = absurd (omega arith)
cut_all (a ∷ actions) (suc n) h = ap (λ l. a ∷ l) (cut_all actions n (omega arith))

plan_done-Whole :
    (call : Call) (d : Disk) → is_provisioned d ≡ false → Whole (act_all (plan call) d)
plan_done-Whole call d h =
    let all = plan call in
    subst (λ (l : List Action). Whole (act_all l d)) (cut_all all (length all) (omega arith))
      (plan-Whole call (length all) d h)

mark_used-Whole : (now : ℕ) (d : Disk) → Whole d → Whole (mark_used now d)
unfolding mark_used is_provisioned
mark_used-Whole now d h = ground (arith, h)

interrupted-Whole :
    (ttl_s : ℕ) (call : Call) (done : ℕ) (d : Disk)
    → Clears call
    → Sound ttl_s call.now d
    → Whole (interrupted ttl_s call done d)
unfolding interrupted actions cut act_all
interrupted-Whole ttl_s call done d clears h =
    let d' = (cleanup_if_stale ttl_s call d).1 in
    elim (Bool-cases (is_provisioned d')) [
      | inl there ↦ rw there (cleanup-Whole ttl_s call d clears h)
      | inr gone ↦ rw gone (plan-Whole call done d' gone)
    ]

provision-Whole :
    (ttl_s : ℕ) (call : Call) (d : Disk)
    → Clears call
    → Sound ttl_s call.now d
    → Whole (provision ttl_s call d).1
unfolding provision actions
provision-Whole ttl_s call d clears h =
    let d' = (cleanup_if_stale ttl_s call d).1 in
    elim (Bool-cases (is_provisioned d')) [
      | inl there ↦ rw there (mark_used-Whole call.now d' (cleanup-Whole ttl_s call d clears h))
      | inr gone ↦ rw gone (plan_done-Whole call d' gone)
    ]

-- From a time and a disk: calls that end, in success or with an error, calls and clean-ups that are
-- cut off, and clean-ups at a start; the clock does not go back, and a clean-up that comes to its
-- end deletes all of the source or all of the tools.
pub data Reach (ttl_s from : ℕ) (first : Disk) : ℕ → Disk → Type 0 where
  here : Reach ttl_s from first from first
  called :
      {t : ℕ} {d : Disk}
      → Reach ttl_s from first t d
      → (call : Call) → t ≤ call.now
      → Clears call
      → Reach ttl_s from first call.now (provision ttl_s call d).1
  cut_off :
      {t : ℕ} {d : Disk}
      → Reach ttl_s from first t d
      → (call : Call) (done : ℕ) → t ≤ call.now
      → Clears call
      → Reach ttl_s from first call.now (interrupted ttl_s call done d)
  cleaned :
      {t : ℕ} {d : Disk}
      → Reach ttl_s from first t d
      → (call : Call) → t ≤ call.now
      → Clears call
      → Reach ttl_s from first call.now (cleanup_if_stale ttl_s call d).1
  cut_cleaning :
      {t : ℕ} {d : Disk}
      → Reach ttl_s from first t d
      → (call : Call) (done : ℕ) → t ≤ call.now
      → Reach ttl_s from first call.now (cleanup_interrupted ttl_s call done d)

-- Whatever calls and clean-ups end, in success or failure, or are cut off between any two steps, if
-- the clock does not go back and a clean-up that comes to its end deletes all of the source or all
-- of the tools: what is taken for an install is a whole one, or so old that a call at this time
-- deletes it before it looks, from a start at which this is so.
pub Reach-Sound :
    (ttl_s from : ℕ) (first : Disk) (now : ℕ) (d : Disk)
    → Reach ttl_s from first now d
    → Sound ttl_s from first
    → Sound ttl_s now d
Reach-Sound ttl_s from first now d here h = h
Reach-Sound ttl_s from first now d (called {t} {d = d'} r call le clears) h = inl (
    provision-Whole ttl_s call d' clears
      (Sound-later ttl_s t call.now d' le (Reach-Sound ttl_s from first t d' r h)))
Reach-Sound ttl_s from first now d (cut_off {t} {d = d'} r call done le clears) h = inl (
    interrupted-Whole ttl_s call done d' clears
      (Sound-later ttl_s t call.now d' le (Reach-Sound ttl_s from first t d' r h)))
Reach-Sound ttl_s from first now d (cleaned {t} {d = d'} r call le clears) h = inl (
    cleanup-Whole ttl_s call d' clears
      (Sound-later ttl_s t call.now d' le (Reach-Sound ttl_s from first t d' r h)))
Reach-Sound ttl_s from first now d (cut_cleaning {t} {d = d'} r call done le) h =
    cleanup_interrupted-Sound ttl_s call done d'
      (Sound-later ttl_s t call.now d' le (Reach-Sound ttl_s from first t d' r h))

abbrev pub Installed : ℕ → Disk → Type 0
Installed now d =
    (is_provisioned d ≡ true) × (d.source ≡ cloned) × (d.tools ≡ installed) × (d.marker ≡ some now)

mark_used-Installed :
    (now : ℕ) (d : Disk) → Whole d → is_provisioned d ≡ true → Installed now (mark_used now d)
unfolding mark_used is_provisioned
mark_used-Installed now d h p = ground (arith, h, p)

-- Nothing fails in a call.
abbrev pub NothingFails : Call → Type 0
NothingFails call =
    (call.source.finishes ≡ true) × (succeeds call.clone ≡ true) × (succeeds call.install ≡ true)

plan-Installed :
    (call : Call) (d : Disk) → NothingFails call → Installed call.now (act_all (plan call) d)
unfolding act_all act plan start source_removal clone_and_install is_provisioned
plan-Installed call d (removes, clones, installs) =
    rw (removes, clones, installs) (refl, refl, refl, refl)

-- After any such history, a call in which no removal, clone or install fails ends without an error,
-- with a whole install that is taken for one and was last used now.
pub provision-succeeds :
    (ttl_s from : ℕ) (first : Disk) (now : ℕ) (d : Disk) (call : Call)
    → Sound ttl_s from first
    → Reach ttl_s from first now d
    → now ≤ call.now
    → Clears call
    → NothingFails call
    → ((provision ttl_s call d).0 ≡ true) × Installed call.now (provision ttl_s call d).1
unfolding provision actions
provision-succeeds ttl_s from first now d call h r le clears succeeds_ =
    let d' = (cleanup_if_stale ttl_s call d).1 in
    let k =
      cleanup-Whole ttl_s call d clears
        (Sound-later ttl_s now call.now d le (Reach-Sound ttl_s from first now d r h)) in
    elim (Bool-cases (is_provisioned d')) [
      | inl there ↦ rw there (refl, mark_used-Installed call.now d' k there)
      | inr gone ↦
          rw gone
            (rw (succeeds_.0, succeeds_.1, succeeds_.2) refl, plan-Installed call d' succeeds_)
    ]
