-- ===== src/TokenCache.antt =====
-- Auth/token_cache.py: the credentials in auth.yaml, encrypted if there is a key. The cipher with
-- its prefix is an argument, and so is the key of each call, which comes from the environment.
-- The file is taken to be one that can be opened, and YAML to read back what it wrote.
pub mod Map
pub mod Migration
mod Tests
use google_find_my_tools_web.Prelude.{
  ◌+◌, ℕ, Bool, true, false, Option, none, some, List, [], ◌∷◌, String, string_eq, if◌then◌else◌,
}
use google_find_my_tools_web.Prelude.Dict.{Dict, lookup, insert}

-- What is at the path of the store: `yaml.safe_load` gives an error, something that is no mapping,
-- or a mapping, which may be empty.
pub data Content {ℓ} (V : Type ℓ) : Type ℓ where
  missing unreadable not_mapping : Content V
  holds : Dict String V → Content V

-- The file, the entries of secrets.json if that is there and can be read, and `_last_load_ok`.
pub record Store {ℓ} (V : Type ℓ) : Type ℓ where
  pub content : Content V
  pub legacy : Option (Dict String V)
  pub last_load_ok : Bool

-- What the values and the cipher are: `seal` encrypts a value under a nonce and adds the prefix,
-- `unseal` is `none` where the tag or the text is invalid.
pub record Cipher {ℓ κ} (V : Type ℓ) (Key : Type κ) : Type (ℓ ⊔ κ) where
  pub seal : Key → ℕ → V → V
  pub is_sealed : V → Bool
  pub unseal : Key → V → Option V
  pub is_true : V → Bool

pub data Loaded {ℓ} (V : Type ℓ) : Type ℓ where
  loaded : Dict String V → Loaded V
  aborts : Loaded V

module _ {ℓ κ} {V : Type ℓ} {Key : Type κ} (c : Cipher V Key) where
  open c use {seal, is_sealed, unseal, is_true}

  -- `_encrypt`
  pub encrypt : Option Key → ℕ → V → V
  encrypt none nonce value = value
  encrypt (some key) nonce value = seal key nonce value

  -- `_decrypt`
  pub decrypt : Option Key → V → Option V
  decrypt none value = some value
  decrypt (some key) value = if is_sealed value then unseal key value else some value

  pub encrypt_all : Option Key → (nonce : ℕ) → Dict String V → Dict String V
  unfolding encrypt
  encrypt_all key nonce [] = []
  encrypt_all key nonce ((name, value) ∷ data') =
      (name, encrypt key nonce value) ∷ encrypt_all key (nonce + 1) data'

  -- `_save`
  pub save : Dict String V → Store V → Store V
  save entries s = record s { content = holds entries }

  -- `_migrate_from_legacy_json() or {}`
  pub migrate :
      Option Key → (nonce : ℕ) → Option (Dict String V) → Store V → Dict String V × Store V
  unfolding encrypt_all save
  migrate key nonce none s = ([], s)
  migrate key nonce (some entries) s = (entries, save (encrypt_all key nonce entries) s)

  pub load_content :
      Option Key → (nonce : ℕ) → (strict : Bool) → Content V → Store V → Loaded V × Store V
  unfolding migrate
  load_content key nonce strict missing s =
      let (entries, s') = migrate key nonce s.legacy (record s { last_load_ok = true }) in
      (loaded entries, s')
  load_content key nonce strict unreadable s =
      (if strict then aborts else loaded [], record s { last_load_ok = false })
  load_content key nonce strict not_mapping s = (loaded [], record s { last_load_ok = false })
  load_content key nonce strict (holds entries) s =
      (loaded entries, record s { last_load_ok = true })

  -- `_load`
  pub load : Option Key → (nonce : ℕ) → (strict : Bool) → Store V → Loaded V × Store V
  unfolding load_content
  load key nonce strict s = load_content key nonce strict s.content s

  if_true : Option V → Option V
  if_true none = none
  if_true (some value) = if is_true value then some value else none

  decrypt_found : Option Key → Option V → Option V
  unfolding decrypt if_true
  decrypt_found key none = none
  decrypt_found key (some value) = if_true (decrypt key value)

  pub value_in : Option Key → String → Loaded V → Option V
  unfolding decrypt_found
  value_in key name aborts = none
  value_in key name (loaded entries) = decrypt_found key (lookup name entries)

  unfoldable pub get_cached_value : Option Key → (nonce : ℕ) → String → Store V → Option V × Store V
  unfolding load value_in
  get_cached_value key nonce name s =
      let (entries, s') = load key nonce false s in (value_in key name entries, s')

  -- Whether it went through, and the store.
  pub set_in : Option Key → (nonce : ℕ) → String → V → Loaded V × Store V → Bool × Store V
  unfolding encrypt save
  set_in key nonce name value (aborts, s) = (false, s)
  set_in key nonce name value (loaded entries, s) =
      (true, save (insert name (encrypt key nonce value) entries) s)

  unfoldable pub set_cached_value : Option Key → (nonce : ℕ) → String → V → Store V → Bool × Store V
  unfolding load set_in
  set_cached_value key nonce name value s = set_in key nonce name value (load key nonce true s)

  -- `generator` is what its call returns, if it is called.
  pub after_get :
      Option Key → (nonce : ℕ) → String → (generator : V) → Option V × Store V → Option V × Store V
  unfolding set_cached_value
  after_get key nonce name generator (some value, s) = (some value, s)
  after_get key nonce name generator (none, s) =
      let (done, s') = set_cached_value key nonce name generator s in
      (if done then some generator else none, s')

  pub get_cached_value_or_set :
      Option Key → (nonce : ℕ) → String → (generator : V) → Store V → Option V × Store V
  unfolding get_cached_value after_get
  get_cached_value_or_set key nonce name generator s =
      after_get key nonce name generator (get_cached_value key nonce name s)

  pub clear_all_cached_values : Store V → Store V
  unfolding save
  clear_all_cached_values s = save [] s
