-- ===== src/FirmwareBuild/Started.antt =====
-- When firmware_build.py starts a build, and how one ends.
use google_find_my_tools_web.Prelude.{
  All, ℕ, ◌+◌, ◌*◌, ◌/◌, ◌≤◌, ◌≡◌, ◌↔◌, ◌⊎◌, inl, inr, refl, arith, Bool, true, false, ◌&&◌, ◌||◌,
  not, Option, none, some, List, [], ◌∷◌, String, string_eq, length, if◌then◌else◌, ◌==◌,
}
use google_find_my_tools_web.Prelude.Int.{int_eq}
use google_find_my_tools_web.FirmwareBuild.{
  preparing, done, error, active, State, Form, Refusal, known_board, is_hex, all, is_eid, name_char,
  valid_device_name, valid_adv_interval, valid_tx_power, refusal, started, start,
  adv_interval_units, Course, set_state, failed, merge_states, build_states, target_states,
  run_build,
}

all_iff : (p : ℕ → Bool) (codes : List ℕ) → (all p codes ≡ true) ↔ All (λ c. p c ≡ true) codes
unfolding all
all_iff p [] = (λ h. tt, λ h. refl)
all_iff p (c ∷ codes) = ground (arith, all_iff p codes)

module _ (strip : List ℕ → List ℕ) where
  -- What a form has to be, and the state it meets.
  pub record Accepts (demo_mode : Bool) (form : Form) (s : State) : Type 0 where
    pub real : demo_mode ≡ false
    pub free : active s.phase ≡ false
    pub board : known_board form.board ≡ true
    pub eid_length : length form.eid_hex ≡ 40
    pub eid_digits : All (λ c. is_hex c ≡ true) form.eid_hex
    pub name_min : 1 ≤ length (strip form.device_name)
    pub name_max : length (strip form.device_name) ≤ 20
    pub name_chars : All (λ c. name_char c ≡ true) (strip form.device_name)
    pub interval_min : 20 ≤ form.adv_interval_ms
    pub interval_max : form.adv_interval_ms ≤ 10240
    pub tx_power : valid_tx_power form.tx_power_dbm ≡ true

  refusal_iff :
      (demo_mode : Bool) (form : Form) (s : State)
      → (refusal strip demo_mode form s ≡ none) ↔ Accepts demo_mode form s
  unfolding refusal is_eid valid_device_name valid_adv_interval
  refusal_iff demo_mode form s =
      ground (arith, all_iff is_hex form.eid_hex, all_iff name_char (strip form.device_name))

  -- A form is accepted, and a build prepared with an interval in the range of Bluetooth, exactly if
  -- it meets all conditions; otherwise the state stays as it was.
  start_iff :
      (demo_mode : Bool) (form : Form) (s : State)
      → Accepts demo_mode form s
          × (start strip demo_mode form s
              ≡ (none, record { phase = preparing; percent = 0; artifact = none }))
          × (32 ≤ adv_interval_units form.adv_interval_ms)
          × (adv_interval_units form.adv_interval_ms ≤ 0x4000)
        ⊎ ¬ Accepts demo_mode form s
          × ((r : Refusal) × (start strip demo_mode form s ≡ (some r, s)))
  unfolding start started adv_interval_units
  start_iff demo_mode form s = by (refusal strip demo_mode form s) refl
    where
      by :
          (r : Option Refusal)
          → refusal strip demo_mode form s ≡ r
          → Accepts demo_mode form s
              × (started strip r s
                  ≡ (none, record { phase = preparing; percent = 0; artifact = none }))
              × (32 ≤ (form.adv_interval_ms * 16 + 5) / 10)
              × ((form.adv_interval_ms * 16 + 5) / 10 ≤ 0x4000)
            ⊎ ¬ Accepts demo_mode form s × ((r' : Refusal) × (started strip r s ≡ (some r', s)))
      by none e =
          let a = (refusal_iff demo_mode form s).0 e in inl (a, refl, omega arith, omega arith)
      by (some r) e = inr (λ a. (let q = (refusal_iff demo_mode form s).1 a in cc), (r, refl))

-- A build is active until its last state, and then no more.
abbrev pub Ends : List State → Type 0
Ends [] = ⊥
Ends (s ∷ []) = active s.phase ≡ false
Ends (s ∷ t ∷ states) = (active s.phase ≡ true) × Ends (t ∷ states)

abbrev pub last_state : State → List State → State
last_state s [] = s
last_state s (t ∷ states) = last_state t states

abbrev pub succeeds : String → Course → Bool
succeeds board c =
    c.provisioned
    && (not (board == "esp32c3") || c.target_set)
    && c.built
    && c.merged
    && c.artifact_there

-- A build is active up to its last state and not in it; it is done, with its artifact, if every
-- step of it succeeds, and has failed otherwise.
run_build-Ends :
    (board artifact : String) (c : Course) (s : State)
    → Ends (run_build board artifact c s)
      × ((last_state s (run_build board artifact c s)).phase
          ≡ (if succeeds board c then done else error))
      × ((last_state s (run_build board artifact c s)).artifact
          ≡ (if succeeds board c then some artifact else s.artifact))
unfolding run_build target_states build_states merge_states failed set_state
run_build-Ends board artifact c s = ground (arith)
