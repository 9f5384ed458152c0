-- ===== src/AuthMiddleware.antt =====
-- webui/auth_middleware.py: what becomes of a connection. `b64decode` with the UTF-8 decoding behind
-- it is an argument, `None` where it raises. A header that was not sent is the empty text.
pub mod Access
mod Tests
use Prim.Native.Char.{code}
use google_find_my_tools_web.Prelude.{
  ◌||◌, not, ltb, nat_beq, false, ◌==◌, some, true, if◌then◌else◌, none, ◌&&◌, Bool, Option, String,
  string_eq,
}

pub data Scope : Type 0 where
  http : (path : String) → Scope
  websocket lifespan : Scope

pub data Outcome : Type 0 where
  passed unauthorized closed : Outcome
  type_error : Outcome

-- HTTP_USER and HTTP_PASSWORD.
pub record Credentials : Type 0 where
  pub user : Option String
  pub password : Option String

set : Option String → Bool
set none = false
set (some text) = not (text == "")

pub enabled : Credentials → Bool
unfolding set
enabled c = set c.user && set c.password

-- `str.partition(":")` without the separator: the texts before and behind the first colon.
unfoldable pub partition : String → String × String
partition String.[] = ("", "")
partition (String.◌∷◌ c s) =
    let (before, behind) = partition s in
    if nat_beq (code c) 58 then ("", s) else (String.◌∷◌ c before, behind)

unfoldable pub is_ascii : String → Bool
is_ascii String.[] = true
is_ascii (String.◌∷◌ c s) = ltb (code c) 128 && is_ascii s

-- `text.startswith(prefix)`, with what is behind the prefix.
unfoldable pub strip_prefix : (prefix text : String) → Option String
strip_prefix String.[] text = some text
strip_prefix (String.◌∷◌ c prefix) String.[] = none
strip_prefix (String.◌∷◌ c prefix) (String.◌∷◌ d text) =
    let rest = strip_prefix prefix text in if nat_beq (code c) (code d) then rest else none

-- `hmac.compare_digest`, which raises a TypeError for texts that are not ASCII.
pub compare_digest : String → String → Option Bool
compare_digest a b = if is_ascii a && is_ascii b then some (a == b) else none

or_blank : Option String → String
or_blank none = ""
or_blank (some text) = text

-- The two comparisons, the second only if the first one holds.
compare_both : Credentials → String × String → Option Bool
unfolding compare_digest or_blank
compare_both c (username, password) = elim (compare_digest username (or_blank c.user)) [
  | none ↦ none
  | some same ↦ if same then compare_digest password (or_blank c.password) else some false
]

decoded_authorized : Credentials → Option String → Option Bool
unfolding partition compare_both
decoded_authorized c none = some false
decoded_authorized c (some decoded) = compare_both c (partition decoded)

encoded_authorized :
    (b64decode : String → Option String) → Credentials → Option String → Option Bool
unfolding decoded_authorized
encoded_authorized b64decode c none = some false
encoded_authorized b64decode c (some encoded) = decoded_authorized c (b64decode encoded)

-- `_is_authorized`, `None` for the TypeError.
pub is_authorized :
    (b64decode : String → Option String) → Credentials → (auth_header : String) → Option Bool
unfolding encoded_authorized strip_prefix
is_authorized b64decode c auth_header =
    encoded_authorized b64decode c (strip_prefix "Basic " auth_header)

pub is_open : Scope → Bool
is_open (http path) = path == "/health"
is_open websocket = false
is_open lifespan = true

rejected : Scope → Outcome
rejected websocket = closed
rejected _ = unauthorized

answer : Scope → Option Bool → Outcome
unfolding rejected
answer scope none = type_error
answer scope (some ok) = if ok then passed else rejected scope

-- `__call__`
pub call :
    (b64decode : String → Option String) → Credentials → Scope → (auth_header : String) → Outcome
unfolding enabled is_open answer
call b64decode c scope auth_header =
    if not (enabled c) || is_open scope
    then passed
    else answer scope (is_authorized b64decode c auth_header)
