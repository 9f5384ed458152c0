-- ===== src/TokenCache/Map.antt =====
-- auth.yaml as a map of names to values, whatever is encrypted in it.
use google_find_my_tools_web.Prelude.{
  ℕ, Bool, true, false, Option, none, some, [], String, string_eq, ◌≡◌, ◌⊎◌, inl, inr, refl, ◌∙◌,
  ap, sym, ◌==◌, if◌then◌else◌, Bool-cases,
}
use google_find_my_tools_web.Prelude.Dict.{Dict, lookup, insert, lookup-insert}
use google_find_my_tools_web.TokenCache.{
  Content, missing, holds, Store, Cipher, loaded, encrypt, decrypt, save, migrate, load_content,
  load, if_true, decrypt_found, value_in, get_cached_value, set_in, set_cached_value,
}

module _ {ℓ κ} {V : Type ℓ} {Key : Type κ} (c : Cipher V Key) where
  open c use {seal, is_sealed, unseal, is_true}

  -- What was encrypted has the prefix and is decrypted by its key.
  pub record Works : Type (ℓ ⊔ κ) where
    pub opens : (key : Key) (nonce : ℕ) (value : V) → unseal key (seal key nonce value) ≡ some value
    pub marks : (key : Key) (nonce : ℕ) (value : V) → is_sealed (seal key nonce value) ≡ true

  -- What a caller sees under a name.
  abbrev pub view : Option Key → Store V → String → Option V
  view key s name = (get_cached_value c key 0 name s).0

  -- The file can be read, or there is none and nothing to migrate.
  abbrev pub Readable : Store V → Type ℓ
  Readable s =
      ((entries : Dict String V) × (s.content ≡ holds entries))
      ⊎ (s.content ≡ missing) × (s.legacy ≡ none)

  decrypt-encrypt :
      Works
      → (key : Option Key) (nonce : ℕ) (value : V)
      → decrypt c key (encrypt c key nonce value) ≡ some value
  unfolding decrypt encrypt
  decrypt-encrypt w none nonce value = refl
  decrypt-encrypt w (some key) nonce value = rw (w.marks key nonce value) (w.opens key nonce value)

  abbrev entries_in : Content V → Dict String V
  entries_in (holds entries) = entries
  entries_in _ = []

  load-Readable :
      (key : Option Key) (nonce : ℕ) (strict : Bool) (s : Store V)
      → Readable s
      → load c key nonce strict s
        ≡ (loaded (entries_in s.content), record s { last_load_ok = true })
  unfolding load load_content migrate
  load-Readable key nonce strict s (inl (entries, e)) = rw e
  load-Readable key nonce strict s (inr (e, l)) = rw (e, l)

  view-entries :
      (key : Option Key) (s : Store V) (name : String)
      → Readable s
      → view key s name ≡ decrypt_found c key (lookup name (entries_in s.content))
  unfolding get_cached_value value_in
  view-entries key s name h = rw (load-Readable key 0 false s h)

  set_lem :
      (key : Option Key) (nonce : ℕ) (name : String) (value : V) (s : Store V)
      → Readable s
      → set_cached_value c key nonce name value s ≡ (
        true,
        record s {
          content = holds (insert name (encrypt c key nonce value) (entries_in s.content));
          last_load_ok = true;
        },
      )
  unfolding set_cached_value set_in save
  set_lem key nonce name value s h = rw (load-Readable key nonce true s h)

  found-insert :
      Works
      → (key : Option Key) (nonce : ℕ) (name : String) (value : V) (entries : Dict String V)
      → is_true value ≡ true
      → (j : String)
      → decrypt_found c key (lookup j (insert name (encrypt c key nonce value) entries))
        ≡ (if name == j then some value else decrypt_found c key (lookup j entries))
  unfolding decrypt_found if_true
  found-insert w key nonce name value entries t j =
      rw (lookup-insert j name (encrypt c key nonce value) entries) (elim (Bool-cases (name == j)) [
        | inl same ↦ rw (same, decrypt-encrypt w key nonce value, t)
        | inr other ↦ rw other
      ])

  -- If the cipher opens and marks what it sealed, and the file is a mapping, or there is none and
  -- nothing to migrate: setting a true value goes through, the value is read back under its name,
  -- and every other name reads as before.
  pub set-view :
      Works
      → (key : Option Key) (nonce : ℕ) (name : String) (value : V) (s : Store V) → Readable s
      → is_true value ≡ true
      → (j : String)
      → ((set_cached_value c key nonce name value s).0 ≡ true)
        × (view key (set_cached_value c key nonce name value s).1 j
            ≡ (if name == j then some value else view key s j))
  set-view w key nonce name value s h t j = rw (set_lem key nonce name value s h) (
    refl,
    view-entries key _ j (inl (_, refl))
        ∙ found-insert w key nonce name value (entries_in s.content) t j
        ∙ ap (λ (o : Option V). if name == j then some value else o) (sym (view-entries key s j h)),
  )
