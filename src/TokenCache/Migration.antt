-- ===== src/TokenCache/Migration.antt =====
-- What token_cache.py writes when it first finds secrets.json, and when the file is damaged.
use google_find_my_tools_web.Prelude.{
  ℕ, true, false, Option, some, [], ◌∷◌, String, string_eq, ◌≡◌, refl, ◌∙◌, ◌==◌,
}
use google_find_my_tools_web.Prelude.Dict.{Dict, lookup, insert, lookup-insert}
use google_find_my_tools_web.TokenCache.{
  missing, unreadable, not_mapping, holds, Store, Cipher, encrypt, encrypt_all, save, migrate,
  load_content, load, get_cached_value, set_in, set_cached_value,
}

module _ {ℓ κ} {V : Type ℓ} {Key : Type κ} (c : Cipher V Key) where
  -- With a key set, no auth.yaml and a secrets.json: a get leaves the migrated values encrypted,
  -- but a set of another name leaves each of them on file as it was, in plain text.
  pub set-plain :
      (key : Key) (nonce : ℕ) (name : String) (value : V) (s : Store V) (entries : Dict String V)
      (j : String) (secret : V)
      → s.content ≡ missing
      → s.legacy ≡ some entries
      → lookup j entries ≡ some secret
      → (name == j) ≡ false
      → ((get_cached_value c (some key) nonce j s).1.content
          ≡ holds (encrypt_all c (some key) nonce entries))
        × ((file : Dict String V) × ((set_cached_value c (some key) nonce name value s).1.content
              ≡ holds file)
            × (lookup j file ≡ some secret))
  unfolding get_cached_value set_cached_value set_in load load_content migrate save
  set-plain key nonce name value s entries j secret m l e n =
      rw (m, l)
        (
          refl,
          (
            insert name (encrypt c (some key) nonce value) entries,
            refl,
            lookup-insert j name (encrypt c (some key) nonce value) entries ∙ rw n e,
          ),
        )

  -- A value is not set in a file that YAML cannot parse; one that parses to no mapping is
  -- replaced by a file with this value alone.
  set-damaged :
      (key : Option Key) (nonce : ℕ) (name : String) (value : V) (s t : Store V)
      → s.content ≡ unreadable
      → t.content ≡ not_mapping
      → (set_cached_value c key nonce name value s ≡ (false, record s { last_load_ok = false }))
        × (set_cached_value c key nonce name value t ≡ (
          true,
          record t {
            content = holds ((name, encrypt c key nonce value) ∷ []);
            last_load_ok = false;
          },
        ))
  unfolding set_cached_value set_in load load_content save insert
  set-damaged key nonce name value s t u n = (rw u, rw n)
