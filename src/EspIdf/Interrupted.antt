-- ===== src/EspIdf/Interrupted.antt =====
-- Whatever is cut off, what esp_idf_provisioning.py takes for an install is a whole one, or one that
-- its next call deletes.
use google_find_my_tools_web.Prelude.{
  ◌≤◌, ℕ, zero, suc, true, false, ◌||◌, none, List, [], ◌∷◌, ◌++◌, ◌≡◌, ◌⊎◌, inl, inr, refl, arith,
  Bool-cases, nat_beq, All,
}
use google_find_my_tools_web.EspIdf.{
  cloned, installed, Disk, Action, Removal, Call, half_clone, finish_clone, half_install,
  finish_install, write_marker, erode_source, erode_tools, remove_source, remove_tools, make_tools,
  remove_marker, is_provisioned, is_stale, older_than, cleanup_actions, cleanup_if_stale,
  source_removal, tools_removal, act, act_all, actions, cut, cleanup_interrupted,
}

-- What is taken for an install is a whole one.
abbrev pub Whole : Disk → Type 0
Whole d = (is_provisioned d ≡ false) ⊎ (d.source ≡ cloned) × (d.tools ≡ installed)

-- Or it is so old that a call at this time deletes it.
abbrev pub Sound : (ttl_s now : ℕ) → Disk → Type 0
Sound ttl_s now d = Whole d ⊎ (nat_beq ttl_s 0 ≡ false) × (older_than ttl_s now d.marker ≡ true)

pub Sound-later :
    (ttl_s now later : ℕ) (d : Disk) → now ≤ later → Sound ttl_s now d → Sound ttl_s later d
Sound-later ttl_s now later d h (inl whole) = inl whole
Sound-later ttl_s now later d h (inr (on, old)) = inr (on, ground (arith, old))

pub no_marker-Whole : (d : Disk) → d.marker ≡ none → Whole d
unfolding is_provisioned
no_marker-Whole d e = inl (ground (arith, e))

-- The clean-up, as far as it gets: the marker stays as it is, or goes.
abbrev Removes : Action → Type 0
Removes remove_source = Unit
Removes remove_tools = Unit
Removes (erode_source keeps) = Unit
Removes (erode_tools keeps) = Unit
Removes _ = ⊥

abbrev IsOld : (ttl_s now : ℕ) → Disk → Type 0
IsOld ttl_s now d = (d.marker ≡ none) ⊎ (older_than ttl_s now d.marker ≡ true)

act-IsOld :
    (ttl_s now : ℕ) (a : Action) (d : Disk)
    → Removes a
    → IsOld ttl_s now d
    → IsOld ttl_s now (act a d)
unfolding act
act-IsOld ttl_s now remove_source d r old = old
act-IsOld ttl_s now remove_tools d r old = inl refl
act-IsOld ttl_s now (erode_source keeps) d r old = old
act-IsOld ttl_s now (erode_tools true) d r old = old
act-IsOld ttl_s now (erode_tools false) d r old = inl refl
act-IsOld ttl_s now make_tools d r old = absurd r
act-IsOld ttl_s now remove_marker d r old = absurd r
act-IsOld ttl_s now finish_clone d r old = absurd r
act-IsOld ttl_s now half_install d r old = absurd r
act-IsOld ttl_s now finish_install d r old = absurd r
act-IsOld ttl_s now (half_clone idf_py) d r old = absurd r
act-IsOld ttl_s now (write_marker t) d r old = absurd r

cut-IsOld :
    (ttl_s now : ℕ) (actions : List Action) (n : ℕ) (d : Disk)
    → All Removes actions
    → IsOld ttl_s now d
    → IsOld ttl_s now (act_all (cut n actions) d)
unfolding cut act_all
cut-IsOld ttl_s now [] n d r old = old
cut-IsOld ttl_s now (a ∷ actions) zero d r old = old
cut-IsOld ttl_s now (a ∷ actions) (suc n) d (r, rs) old =
    cut-IsOld ttl_s now actions n (act a d) rs (act-IsOld ttl_s now a d r old)

All-removal : (source tools : Removal) → All Removes (source_removal source ++ tools_removal tools)
unfolding source_removal tools_removal
All-removal source tools = elim (Bool-cases source.finishes) [
  | inl s ↦ elim (Bool-cases tools.finishes) [
    | inl t ↦ rw (s, t) (tt, (tt, (tt, (tt, tt))))
    | inr t ↦ rw (s, t) (tt, (tt, (tt, tt)))
  ]
  | inr s ↦ elim (Bool-cases tools.finishes) [
    | inl t ↦ rw (s, t) (tt, (tt, (tt, tt)))
    | inr t ↦ rw (s, t) (tt, (tt, tt))
  ]
]

IsOld-Sound :
    (ttl_s now : ℕ) (d : Disk) → nat_beq ttl_s 0 ≡ false → IsOld ttl_s now d → Sound ttl_s now d
IsOld-Sound ttl_s now d on (inl gone) = inl (no_marker-Whole d gone)
IsOld-Sound ttl_s now d on (inr old) = inr (on, old)

stale-IsOld :
    (ttl_s now : ℕ) (d : Disk)
    → is_stale ttl_s now d ≡ true
    → (nat_beq ttl_s 0 ≡ false) × (older_than ttl_s now d.marker ≡ true)
unfolding is_stale
stale-IsOld ttl_s now d stale = (ground (arith, stale), ground (arith, stale))

pub cleanup_interrupted-Sound :
    (ttl_s : ℕ) (call : Call) (done : ℕ) (d : Disk)
    → Sound ttl_s call.now d
    → Sound ttl_s call.now (cleanup_interrupted ttl_s call done d)
unfolding cleanup_interrupted cleanup_actions cut act_all
cleanup_interrupted-Sound ttl_s call done d h = elim (Bool-cases (is_stale ttl_s call.now d)) [
  | inl stale ↦
      let (on, old) = stale-IsOld ttl_s call.now d stale in
      rw stale (
        IsOld-Sound ttl_s call.now _ on (
          cut-IsOld ttl_s call.now
            (source_removal call.stale_source ++ tools_removal call.stale_tools) done d
            (All-removal call.stale_source call.stale_tools) (inr old)))
  | inr kept ↦ rw kept h
]

-- A removal that comes to its end reaches the source or the marker.
abbrev pub Clears : Call → Type 0
Clears call = (call.stale_source.finishes || call.stale_tools.finishes) ≡ true

cleared :
    (source tools : Removal) (d : Disk)
    → (source.finishes || tools.finishes) ≡ true
    → is_provisioned (act_all (source_removal source ++ tools_removal tools) d) ≡ false
unfolding source_removal tools_removal act_all act is_provisioned
cleared source tools d h = elim (Bool-cases source.finishes) [
  | inl s ↦ elim (Bool-cases tools.finishes) [ inl t ↦ rw (s, t) refl | inr t ↦ rw (s, t) refl ]
  | inr s ↦ elim (Bool-cases tools.finishes) [
    | inl t ↦ rw (s, t) (ground arith)
    | inr t ↦ absurd (ground (arith, h, s, t))
  ]
]

pub cleanup-Whole :
    (ttl_s : ℕ) (call : Call) (d : Disk)
    → Clears call
    → Sound ttl_s call.now d
    → Whole (cleanup_if_stale ttl_s call d).1
unfolding cleanup_if_stale cleanup_actions is_stale
cleanup-Whole ttl_s call d clears h = elim (Bool-cases (is_stale ttl_s call.now d)) [
  | inl stale ↦ rw stale (inl (cleared call.stale_source call.stale_tools d clears))
  | inr kept ↦ rw kept (whole_kept kept h)
]
  where
    whole_kept : is_stale ttl_s call.now d ≡ false → Sound ttl_s call.now d → Whole d
    whole_kept kept (inl whole) = whole
    whole_kept kept (inr (on, old)) = inl (ground (arith, kept, on, old))
