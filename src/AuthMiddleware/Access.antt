-- ===== src/AuthMiddleware/Access.antt =====
-- Who gets past webui/auth_middleware.py.
use google_find_my_tools_web.Prelude.{
  refl, none, eq_iff, ap, inl, inr, Bool-cases, arith, ◌⊎◌, ◌==◌, ◌≡◌, string_eq,
}
use google_find_my_tools_web.AuthMiddleware.{
  Bool, true, false, Option, some, String, Scope, http, websocket, lifespan, passed, type_error,
  enabled, set, or_blank, partition, is_ascii, strip_prefix, compare_digest, compare_both,
  decoded_authorized, encoded_authorized, is_authorized, is_open, answer, rejected, call,
}

compare_both-true :
    (user password : String) (given : String × String)
    → compare_both (record { user = some user; password = some password }) given ≡ some true
    → (given.0 ≡ user) × (given.1 ≡ password)
unfolding compare_both compare_digest or_blank
compare_both-true user password (u, p) h = ground (arith, eq_iff u user, eq_iff p password)

open_scope : (scope : Scope) → is_open scope ≡ true → (scope ≡ lifespan) ⊎ (scope ≡ http "/health")
unfolding is_open
open_scope (http path) h = inr (ap http ((eq_iff path "/health").0 h))
open_scope websocket h = absurd (ground arith)
open_scope lifespan h = inl refl

answer-passed : (scope : Scope) (ok : Option Bool) → answer scope ok ≡ passed → ok ≡ some true
unfolding answer rejected
answer-passed scope none h = absurd (ground arith)
answer-passed scope (some true) h = refl
answer-passed (http path) (some false) h = absurd (ground arith)
answer-passed websocket (some false) h = absurd (ground arith)
answer-passed lifespan (some false) h = absurd (ground arith)

-- The header carries these credentials.
abbrev pub Carries : (b64decode : String → Option String) → String → String × String → Type 0
Carries b64decode auth_header credentials =
    (encoded decoded : String) × (strip_prefix "Basic " auth_header ≡ some encoded)
    × (b64decode encoded ≡ some decoded)
    × (partition decoded ≡ credentials)

decoded-true :
    (user password : String) (o : Option String)
    → decoded_authorized (record { user = some user; password = some password }) o ≡ some true
    → (decoded : String) × (o ≡ some decoded) × (partition decoded ≡ (user, password))
unfolding decoded_authorized
decoded-true user password none h = absurd (ground arith)
decoded-true user password (some decoded) h =
    let (e, f) = compare_both-true user password (partition decoded) h in (decoded, refl, cc)

encoded-true :
    (b64decode : String → Option String) (user password : String) (o : Option String)
    → encoded_authorized b64decode (record { user = some user; password = some password }) o
      ≡ some true
    → (encoded decoded : String) × (o ≡ some encoded)
      × (b64decode encoded ≡ some decoded)
      × (partition decoded ≡ (user, password))
unfolding encoded_authorized
encoded-true b64decode user password none h = absurd (ground arith)
encoded-true b64decode user password (some encoded) h =
    let (decoded, e, f) = decoded-true user password (b64decode encoded) h in
    (encoded, decoded, refl, e, f)

both_set :
    (user password : String)
    → (user == "") ≡ false
    → (password == "") ≡ false
    → enabled (record { user = some user; password = some password }) ≡ true
unfolding enabled set
both_set user password u p = rw (u, p)

-- With both credentials set, a request gets through only as an open one (the health check, or the
-- server's own lifespan events), or if its header decodes to exactly these credentials.
pub call-passed :
    (b64decode : String → Option String) (user password : String) (scope : Scope)
    (auth_header : String)
    → (user == "") ≡ false
    → (password == "") ≡ false
    → call b64decode (record { user = some user; password = some password }) scope auth_header
      ≡ passed
    → ((scope ≡ lifespan) ⊎ (scope ≡ http "/health"))
      ⊎ Carries b64decode auth_header (user, password)
unfolding call is_authorized
call-passed b64decode user password scope auth_header u p h = elim (Bool-cases (is_open scope)) [
  | inl free ↦ inl (open_scope scope free)
  | inr gated ↦ inr (
      encoded-true b64decode user password (strip_prefix "Basic " auth_header)
        (answer-passed scope _ (rw (both_set user password u p, gated) at h)))
]

compare_both-none :
    (user password : String) (given : String × String)
    → is_ascii user ≡ true
    → is_ascii password ≡ false
    → given.0 ≡ user
    → compare_both (record { user = some user; password = some password }) given ≡ none
unfolding compare_both compare_digest or_blank
compare_both-none user password (u, p) a b e = ground (arith, a, b, ap is_ascii e, eq_iff u user)

-- With both credentials set, the user name in ASCII and the password not, a request that is no open
-- one and gives the right user name ends in a TypeError, whatever password it gives.
pub call-type_error :
    (b64decode : String → Option String) (user password : String) (scope : Scope)
    (auth_header encoded decoded : String)
    → (user == "") ≡ false
    → (password == "") ≡ false
    → is_open scope ≡ false
    → is_ascii user ≡ true
    → is_ascii password ≡ false
    → strip_prefix "Basic " auth_header ≡ some encoded
    → b64decode encoded ≡ some decoded
    → (partition decoded).0 ≡ user
    → call b64decode (record { user = some user; password = some password }) scope auth_header
      ≡ type_error
unfolding call is_authorized answer encoded_authorized decoded_authorized
call-type_error b64decode user password scope auth_header encoded decoded u p gated a b s d e =
    let raises : compare_both (record { user = some user; password = some password })
          (partition decoded)
        ≡ none =
      compare_both-none user password (partition decoded) a b e in
    rw (both_set user password u p, gated, s, d, raises) refl
