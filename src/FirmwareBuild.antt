-- ===== src/FirmwareBuild.antt =====
-- webui/firmware_build.py: the guards of `start`, the values of the build configuration, the phases
-- of a build, and which build sandboxes are kept. Texts are lists of code points; the numbers of
-- milliseconds and dBm are whole, dBm as an integer.
pub mod Started
pub mod Pruned
mod Tests
use google_find_my_tools_web.Prelude.{
  ℕ, zero, suc, ◌+◌, ◌-◌, ◌*◌, ◌/◌, ◌≤◌, Bool, true, false, ◌&&◌, ◌||◌, not, Option, none, some,
  List, [], ◌∷◌, ◌++◌, String, string_eq, leb, ltb, nat_beq, length, contains, if◌then◌else◌, ◌==◌,
}
use google_find_my_tools_web.Prelude.Int.{ℤ, pos, negsuc, int_eq}

pub data Phase : Type 0 where
  idle provisioning cloning installing_toolchain preparing building merging done error : Phase

-- `_ACTIVE_PHASES`
abbrev pub active : Phase → Bool
active idle = false
active done = false
active error = false
active _ = true

-- `_state`, without the texts.
pub record State : Type 0 where
  pub phase : Phase
  pub percent : ℕ
  pub artifact : Option String

pub record Form : Type 0 where
  pub board : String
  pub eid_hex : List ℕ
  pub device_name : List ℕ
  pub adv_interval_ms : ℕ
  pub tx_power_dbm : ℤ

pub data Refusal : Type 0 where
  demo already_active unknown_board bad_eid bad_name bad_interval bad_tx_power : Refusal

-- `_BOARDS`
abbrev pub known_board : String → Bool
known_board board = board == "esp32" || board == "esp32c3"

abbrev pub is_hex : ℕ → Bool
is_hex c = leb 48 c && leb c 57 || leb 97 c && leb c 102 || leb 65 c && leb c 70

pub all : (ℕ → Bool) → List ℕ → Bool
all p [] = true
all p (c ∷ codes) = p c && all p codes

-- `_EID_RE.fullmatch`
pub is_eid : List ℕ → Bool
unfolding all
is_eid eid = nat_beq (length eid) 40 && all is_hex eid

-- Printable ASCII with no quote and no backslash.
abbrev pub name_char : ℕ → Bool
name_char c = leb 0x20 c && leb c 0x7e && not (nat_beq c 34) && not (nat_beq c 92)

pub valid_device_name : List ℕ → Bool
unfolding all
valid_device_name name = leb 1 (length name) && leb (length name) 20 && all name_char name

pub valid_adv_interval : ℕ → Bool
valid_adv_interval ms = leb 20 ms && leb ms 10240

-- The keys of `_TX_POWER_ENUM`: from -12 to 9, by threes.
abbrev tx_powers : List ℤ
tx_powers = negsuc 11 ∷ negsuc 8 ∷ negsuc 5 ∷ negsuc 2 ∷ pos 0 ∷ pos 3 ∷ pos 6 ∷ pos 9 ∷ []

pub valid_tx_power : ℤ → Bool
valid_tx_power dbm = contains tx_powers dbm

module _ (strip : List ℕ → List ℕ) where
  -- The first refusal, if any.
  pub refusal : (demo_mode : Bool) → Form → State → Option Refusal
  unfolding is_eid valid_device_name valid_adv_interval valid_tx_power
  refusal demo_mode form s =
      if demo_mode
      then some demo
      else if active s.phase
      then some already_active
      else if not (known_board form.board)
      then some unknown_board
      else if not (is_eid form.eid_hex)
      then some bad_eid
      else if not (valid_device_name (strip form.device_name))
      then some bad_name
      else if not (valid_adv_interval form.adv_interval_ms)
      then some bad_interval
      else if not (valid_tx_power form.tx_power_dbm)
      then some bad_tx_power
      else none

  pub started : Option Refusal → State → Option Refusal × State
  started none s = (none, record { phase = preparing; percent = 0; artifact = none })
  started (some r) s = (some r, s)

  -- `none` is the answer `{"started": True}`, behind which the task of `_run_build` runs.
  pub start : (demo_mode : Bool) → Form → State → Option Refusal × State
  unfolding refusal started
  start demo_mode form s = started (refusal demo_mode form s) s

-- `round(adv_interval_ms / 0.625)`: a multiple of 1.6 is never halfway between two numbers.
pub adv_interval_units : ℕ → ℕ
adv_interval_units ms = (ms * 16 + 5) / 10

-- How the steps of a build end.
pub record Course : Type 0 where
  pub provisioned : Bool
  pub target_set : Bool
  pub built : Bool
  pub merged : Bool
  pub artifact_there : Bool

-- `_set_state`, which keeps the artifact unless it is given one.
pub set_state : Phase → ℕ → State → State
set_state phase percent s = record s { phase = phase; percent = percent }

-- The states at the starts of the steps of `_run_build`, and the last one; `esp32c3` runs a
-- command to set its target.
pub failed : State → List State
unfolding set_state
failed s = set_state error 100 s ∷ []

pub merge_states : String → Course → State → List State
unfolding set_state failed
merge_states artifact c s =
    let s' = set_state merging 90 s in
    s'
    ∷ (if c.merged && c.artifact_there
        then record (set_state done 100 s') { artifact = some artifact } ∷ []
        else failed s')

pub build_states : String → Course → State → List State
unfolding set_state failed merge_states
build_states artifact c s =
    let s' = set_state building 25 s in
    s' ∷ (if c.built then merge_states artifact c s' else failed s')

pub target_states : (board : String) → String → Course → State → List State
unfolding set_state failed build_states
target_states board artifact c s =
    let s' = set_state preparing 15 s in
    s'
    ∷ (if not (board == "esp32c3") || c.target_set then build_states artifact c s' else failed s')

pub run_build : (board : String) → String → Course → State → List State
unfolding set_state failed target_states
run_build board artifact c s =
    let s' = set_state provisioning 0 s in
    s' ∷ (if c.provisioned then target_states board artifact c s' else failed s')

-- A sandbox under `firmware_builds`.
pub record Build : Type 0 where
  pub name : String
  pub mtime : ℕ

-- The age sweep, which a TTL of 0 turns off.
pub sweep : (ttl_s now : ℕ) → List Build → List Build
sweep ttl_s now [] = []
sweep ttl_s now (b ∷ builds) =
    let rest = sweep ttl_s now builds in
    if ltb 0 ttl_s && ltb (b.mtime + ttl_s) now then rest else b ∷ rest

pub place : Build → List Build → List Build
place b [] = b ∷ []
place b (other ∷ rest) = if leb b.mtime other.mtime then b ∷ other ∷ rest else other ∷ place b rest

-- `sorted(..., key=lambda d: d.stat().st_mtime)`, which keeps the order of equal keys.
pub sort_by_mtime : List Build → List Build
unfolding place
sort_by_mtime [] = []
sort_by_mtime (b ∷ builds) = place b (sort_by_mtime builds)

-- The first items of a list, and those behind them.
pub split_at : ℕ → List Build → List Build × List Build
split_at n [] = ([], [])
split_at zero (b ∷ builds) = ([], b ∷ builds)
split_at (suc n) (b ∷ builds) = let (front, back) = split_at n builds in (b ∷ front, back)

-- The sandboxes that go after the sweep, `dirs[:-keep]`, and those that stay.
unfoldable pub prune_old_builds : (ttl_s keep now : ℕ) → List Build → List Build × List Build
unfolding sweep sort_by_mtime split_at
prune_old_builds ttl_s keep now builds =
    let dirs = sort_by_mtime (sweep ttl_s now builds) in split_at (length dirs - keep) dirs
