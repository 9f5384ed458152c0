-- ===== src/Forwarding/Policy/Gates.antt =====
-- When `_forward_one` sends: the gates of policy.py against a description without tests.
use google_find_my_tools_web.Prelude.{
  refl, Bool-cases, inr, inl, Option-cases, ◌<◌, ℕ, ◌+◌, ◌*◌, ◌≤◌, ◌≡◌, ◌⊎◌, ◌&&◌, Bool, true,
  false, some, String, arith, contains, string_eq,
}
use google_find_my_tools_web.Reading.{Position, Location}
use google_find_my_tools_web.Forwarding.{Endpoint, EndpointState, sent, or_default, on_unless_off}
use google_find_my_tools_web.Forwarding.Policy.{
  raised, raise_for_status, status_of, Response, forward_to_custom, response, is_blank,
  default_min_movement_m, default_min_update_gap_m, default_max_accuracy_m, fresh_fix_age_s,
  skip_already_seen, skip_not_most_recent, abs_diff, is_none, stale_duplicate, skip_blocked_status,
  skip_not_own_report, skip_inaccurate, too_close_to_bother, World, dispatch_forward, forward_one,
}

-- What every switched-on gate asks of a reading.
pub record IsEligible (distance : Position → Position → ℕ) (ep : Endpoint) (state : EndpointState)
    (loc : Location) (already_seen is_most_recent : Bool) (now : ℕ) : Type 0 where
  pub is_new : already_seen ≡ true → ep.skip_if_already_seen ≡ some false
  pub is_newest : is_most_recent ≡ false → ep.only_most_recent ≡ some false
  pub moved :
      ep.skip_if_close ≡ true
      → (here last : Position) → loc.position ≡ some here
      → state.last_sent ≡ some last
      → or_default ep.min_movement_m default_min_movement_m ≤ distance last here
  pub updated :
      ep.skip_if_stale ≡ true
      → (loc.is_semantic && is_none loc.position) ≡ false
      → (time last : ℕ) → loc.time ≡ some time
      → state.last_sent_fix_time ≡ some last
      → (now ≤ time + fresh_fix_age_s)
        ⊎ (or_default ep.min_update_gap_m default_min_update_gap_m * 60 ≤ abs_diff time last)
  pub allowed :
      ep.filter_by_status ≡ true
      → (status : String) → loc.status ≡ some status
      → contains ep.blocked_statuses status ≡ false
  pub own : ep.skip_if_not_own_report ≡ true → loc.is_semantic ≡ false → loc.is_own_report ≡ true
  pub accurate :
      ep.skip_if_inaccurate ≡ true
      → loc.is_semantic ≡ false
      → (accuracy : ℕ) → loc.accuracy ≡ some accuracy
      → accuracy ≤ or_default ep.max_accuracy_m default_max_accuracy_m

abbrev pub IsAnswered : Response → Type 0
IsAnswered r = (code : ℕ) × (body : String) × (r ≡ response code body) × (200 ≤ code) × (code < 300)

-- What became of a request: an answer that is a success; in demo mode nothing goes out.
abbrev pub IsDelivered : World → Endpoint → Location → Type 0
IsDelivered world ep loc = (world.demo_mode ≡ true) ⊎ IsAnswered (world.request ep loc)

answered :
    (world : World) (r : Response)
    → status_of world (raise_for_status world.describe r) ≡ sent
    → IsAnswered r
unfolding status_of raise_for_status
answered world (response code body) h = (code, body, refl, ground arith, ground arith)
answered world (raised e) h = absurd (ground arith)

module _ (world : World) (ep : Endpoint) (state : EndpointState) (loc : Location)
    (already_seen is_most_recent : Bool) (now : ℕ) where
  -- Every gate lets the reading through.
  record Passes : Type 0 where
    new : skip_already_seen ep already_seen ≡ false
    newest : skip_not_most_recent ep is_most_recent ≡ false
    moved : too_close_to_bother world ep state loc ≡ false
    updated : stale_duplicate ep state loc now ≡ false
    allowed : skip_blocked_status ep loc ≡ false
    own : skip_not_own_report ep loc ≡ false
    accurate : skip_inaccurate ep loc ≡ false

  Passes-IsEligible :
      Passes → IsEligible world.distance ep state loc already_seen is_most_recent now
  unfolding skip_already_seen skip_not_most_recent on_unless_off too_close_to_bother stale_duplicate
      skip_blocked_status skip_not_own_report skip_inaccurate
  Passes-IsEligible p = record {
    is_new = λ h. ground (arith, p.new);
    is_newest = λ h. ground (arith, p.newest);
    moved = λ on here last e f. ground (arith, p.moved);
    updated = λ on real time last e f. ground (arith, p.updated);
    allowed = λ on status e. ground (arith, p.allowed);
    own = λ on real. ground (arith, p.own);
    accurate = λ on real accuracy e. ground (arith, p.accurate);
  }

  IsEligible-Passes :
      IsEligible world.distance ep state loc already_seen is_most_recent now → Passes
  unfolding skip_already_seen skip_not_most_recent on_unless_off too_close_to_bother stale_duplicate
      skip_blocked_status skip_not_own_report skip_inaccurate
  IsEligible-Passes p = record {
    new = ground (arith, p.is_new);
    newest = ground (arith, p.is_newest);
    moved = grind (arith, p.moved);
    updated = grind (arith, p.updated);
    allowed = grind (arith, p.allowed);
    own = ground (arith, p.own);
    accurate = grind (arith, p.accurate);
  }

  sent-Passes :
      forward_one world ep state loc already_seen is_most_recent now ≡ sent
      → Passes × (dispatch_forward world ep loc ≡ sent)
  unfolding forward_one
  sent-Passes h = (
    record {
      new = ground arith;
      newest = ground arith;
      moved = ground arith;
      updated = ground arith;
      allowed = ground arith;
      own = ground arith;
      accurate = ground arith;
    },
    ground arith,
  )

  Passes-dispatch :
      Passes
      → forward_one world ep state loc already_seen is_most_recent now
        ≡ dispatch_forward world ep loc
  unfolding forward_one
  Passes-dispatch p = rw (p.new, p.newest, p.moved, p.updated, p.allowed, p.own, p.accurate)

  dispatch-IsDelivered :
      dispatch_forward world ep loc ≡ sent
      → ((here : Position) × (loc.position ≡ some here))
        × (is_blank ep.url ≡ false)
        × IsDelivered world ep loc
  unfolding dispatch_forward forward_to_custom status_of
  dispatch-IsDelivered h = elim (Option-cases loc.position) [
    | inl nowhere ↦ absurd (ground arith)
    | inr (here, e) ↦ elim (Bool-cases world.demo_mode) [
      | inl demo ↦ ((here, e), ground arith, inl demo)
      | inr real ↦
          ((here, e), ground arith, inr (answered world (world.request ep loc) (ground arith)))
    ]
  ]

  -- A reading is reported as sent only if it meets every gate that is on, has a position, the
  -- endpoint has a URL, and the destination answered with a success (or the app is in demo mode).
  pub forward_one-sent :
      forward_one world ep state loc already_seen is_most_recent now ≡ sent
      → IsEligible world.distance ep state loc already_seen is_most_recent now
        × ((here : Position) × (loc.position ≡ some here))
        × (is_blank ep.url ≡ false)
        × IsDelivered world ep loc
  forward_one-sent h =
      let (p, e) = sent-Passes h in
      let (here, url, delivered) = dispatch-IsDelivered e in
      (Passes-IsEligible p, here, url, delivered)

  -- A reading that meets every gate that is on is dispatched, whatever else holds of it.
  forward_one-eligible :
      IsEligible world.distance ep state loc already_seen is_most_recent now
      → forward_one world ep state loc already_seen is_most_recent now
        ≡ dispatch_forward world ep loc
  forward_one-eligible p = Passes-dispatch (IsEligible-Passes p)
