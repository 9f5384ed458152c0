-- ===== src/EspIdf.antt =====
-- webui/esp_idf_provisioning.py: the ESP-IDF install under the firmware directory, as what is on
-- disk. The ends of git, of install.sh and of shutil.rmtree are arguments; a step that is cut off
-- leaves the disk as the steps before it did.
pub mod Interrupted
pub mod Installs
mod Tests
use google_find_my_tools_web.Prelude.{
  zero, suc, ℕ, ◌+◌, ◌-◌, Bool, true, false, ◌&&◌, ◌||◌, not, Option, none, some, List, [], ◌∷◌,
  ◌++◌, leb, ltb, nat_beq, if◌then◌else◌,
}

-- The source tree is there, cloned or half cloned, which may have brought `tools/idf.py`; the tools directory, with its
-- contents from install.sh or not; and the marker with its modification time.
pub data Source : Type 0 where
  no_source cloned : Source
  half_cloned : (idf_py : Bool) → Source

pub data Tools : Type 0 where
  no_tools empty_tools half_installed installed : Tools

pub record Disk : Type 0 where
  pub source : Source
  pub tools : Tools
  pub marker : Option ℕ

abbrev pub has_idf_py : Source → Bool
has_idf_py no_source = false
has_idf_py cloned = true
has_idf_py (half_cloned idf_py) = idf_py

abbrev pub is_there {ℓ} : {A : Type ℓ} → Option A → Bool
is_there none = false
is_there (some a) = true

unfoldable pub is_provisioned : Disk → Bool
is_provisioned d = has_idf_py d.source && is_there d.marker

-- `marker.touch()`, if the marker is there.
pub mark_used : (now : ℕ) → Disk → Disk
mark_used now d = record d { marker = elim d.marker [ none ↦ none | some t ↦ some now ] }

abbrev older_than : (ttl_s now : ℕ) → Option ℕ → Bool
older_than ttl_s now none = false
older_than ttl_s now (some t) = ltb (t + ttl_s) now

-- `now - marker_mtime > ttl_s` is tested on the installs that are provisioned.
pub is_stale : (ttl_s now : ℕ) → Disk → Bool
unfolding is_provisioned
is_stale ttl_s now d = not (nat_beq ttl_s 0) && is_provisioned d && older_than ttl_s now d.marker

-- What `provision` and the clean-up do to the disk, one step after the other; a removal, a clone and
-- an install may be seen half done.
pub data Action : Type 0 where
  remove_source remove_tools make_tools remove_marker : Action
  finish_clone half_install finish_install : Action
  erode_source erode_tools : (keeps : Bool) → Action
  half_clone : (idf_py : Bool) → Action
  write_marker : ℕ → Action

pub eroded_source : Bool → Source → Source
eroded_source keeps no_source = no_source
eroded_source keeps source = half_cloned (has_idf_py source && keeps)

pub eroded_tools : Tools → Tools
eroded_tools no_tools = no_tools
eroded_tools _ = half_installed

pub act : Action → Disk → Disk
unfolding eroded_source eroded_tools
act remove_source d = record d { source = no_source }
act remove_tools d = record d { tools = no_tools; marker = none }
act make_tools d = record d { tools = elim d.tools [ no_tools ↦ empty_tools | t ↦ t ] }
act remove_marker d = record d { marker = none }
act (erode_source keeps) d = record d { source = eroded_source keeps d.source }
act (erode_tools keeps) d = record d {
  tools = eroded_tools d.tools;
  marker = if keeps then d.marker else none;
}
act (half_clone idf_py) d = record d { source = half_cloned idf_py }
act finish_clone d = record d { source = cloned }
act half_install d = record d { tools = half_installed }
act finish_install d = record d { tools = installed }
act (write_marker now) d = record d { marker = some now }

pub act_all : List Action → Disk → Disk
unfolding act
act_all [] d = d
act_all (a ∷ actions) d = act_all actions (act a d)

-- `shutil.rmtree` with `ignore_errors`: whether `tools/idf.py`, or the marker, is kept while it goes
-- on, and for good if it does not delete everything in the end.
pub record Removal : Type 0 where
  pub keeps : Bool
  pub finishes : Bool

pub source_removal : Removal → List Action
source_removal r = erode_source r.keeps ∷ (if r.finishes then remove_source ∷ [] else [])

pub tools_removal : Removal → List Action
tools_removal r = erode_tools r.keeps ∷ (if r.finishes then remove_tools ∷ [] else [])

-- How a subprocess of `provision` ends; in the failures a RuntimeError is raised.
pub data Ending : Type 0 where
  exits_zero fails times_out : Ending

abbrev pub succeeds : Ending → Bool
succeeds exits_zero = true
succeeds _ = false

-- A call: its time, the removals of its clean-up and of what an earlier attempt left, the ends of
-- the clone and the install, and whether a clone that is cut off has brought `tools/idf.py`.
pub record Call : Type 0 where
  pub now : ℕ
  pub stale_source : Removal
  pub stale_tools : Removal
  pub source : Removal
  pub clone : Ending
  pub install : Ending
  pub idf_py : Bool

-- `cleanup_if_stale` returns whether there are any.
pub cleanup_actions : (ttl_s : ℕ) → Call → Disk → List Action
unfolding is_stale source_removal tools_removal
cleanup_actions ttl_s call d =
    if is_stale ttl_s call.now d
    then source_removal call.stale_source ++ tools_removal call.stale_tools
    else []

unfoldable pub cleanup_if_stale : (ttl_s : ℕ) → Call → Disk → Bool × Disk
unfolding cleanup_actions act_all is_stale
cleanup_if_stale ttl_s call d =
    (is_stale ttl_s call.now d, act_all (cleanup_actions ttl_s call d) d)

-- What is removed at the start of an install.
pub start : Removal → List Action
unfolding source_removal
start source = source_removal source ++ make_tools ∷ remove_marker ∷ []

-- git refuses a directory that is not empty.
pub clone_and_install : Call → List Action
clone_and_install call =
    if call.source.finishes
    then half_clone call.idf_py
      ∷ (if succeeds call.clone
          then finish_clone
            ∷ half_install
            ∷ (if succeeds call.install then finish_install ∷ write_marker call.now ∷ [] else [])
          else [])
    else []

-- The actions of a call that finds nothing installed.
pub plan : Call → List Action
unfolding start clone_and_install
plan call = start call.source ++ clone_and_install call

-- What a call does after the clean-up.
pub actions : Call → Disk → List Action
unfolding plan is_provisioned
actions call d = if is_provisioned d then [] else plan call

-- Whether the call returns, and the disk at the end.
unfoldable pub provision : (ttl_s : ℕ) → Call → Disk → Bool × Disk
unfolding cleanup_if_stale actions act_all mark_used is_provisioned
provision ttl_s call d =
    let d' = (cleanup_if_stale ttl_s call d).1 in
    if is_provisioned d' then (true, mark_used call.now d') else (
      call.source.finishes && succeeds call.clone && succeeds call.install,
      act_all (actions call d') d',
    )

-- A crash: a prefix of the actions was carried out.
pub cut : ℕ → List Action → List Action
cut n [] = []
cut zero (a ∷ actions) = []
cut (suc n) (a ∷ actions) = a ∷ cut n actions

-- A clean-up that is cut off, at a start or at the head of a call.
unfoldable pub cleanup_interrupted : (ttl_s : ℕ) → Call → (done : ℕ) → Disk → Disk
unfolding cleanup_actions act_all cut
cleanup_interrupted ttl_s call done d = act_all (cut done (cleanup_actions ttl_s call d)) d

-- A call that is cut off behind its clean-up.
unfoldable pub interrupted : (ttl_s : ℕ) → Call → (done : ℕ) → Disk → Disk
unfolding cleanup_if_stale actions act_all cut
interrupted ttl_s call done d =
    let d' = (cleanup_if_stale ttl_s call d).1 in act_all (cut done (actions call d')) d'
