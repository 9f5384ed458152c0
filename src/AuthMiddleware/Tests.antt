-- ===== src/AuthMiddleware/Tests.antt =====
-- Runs of auth_middleware.py, and its theorems at concrete inputs. The decoder here knows two headers.
use google_find_my_tools_web.Prelude.{◌==◌, if◌then◌else◌, refl, ◌⊎◌, ◌≡◌, string_eq}
use google_find_my_tools_web.AuthMiddleware.{
  none, Option, false, true, String, some, http, websocket, lifespan, passed, closed, type_error,
  Credentials, enabled, partition, is_ascii, strip_prefix, compare_digest, is_authorized, is_open,
  call,
}
use google_find_my_tools_web.AuthMiddleware.Access.{Carries, call-passed, call-type_error}

program : Unit {0}
unfolding enabled partition is_ascii strip_prefix compare_digest is_authorized is_open call
program = tt

abbrev b64decode : String → Option String
b64decode encoded =
    if encoded == "dTpw" then some "u:p" else if encoded == "dTp4" then some "u:x" else none

abbrev up : Credentials
up = record { user = some "u"; password = some "p" }

right : call b64decode up (http "/devices") "Basic dTpw" ≡ passed
unfolding program
right = refl

wrong : call b64decode up websocket "Basic dTp4" ≡ closed
unfolding program
wrong = refl

prefix : strip_prefix "Basic " "Basic dTp4" ≡ some "dTp4"
unfolding program
prefix = refl

split : (partition "u:x").0 ≡ "u"
unfolding program
split = refl

plain : is_ascii "u" ≡ true
unfolding program
plain = refl

accented : is_ascii "é" ≡ false
unfolding program
accented = refl

gated : is_open websocket ≡ false
unfolding program
gated = refl

call-passed_example :
    ((http "/devices" ≡ lifespan) ⊎ (http "/devices" ≡ http "/health"))
    ⊎ Carries b64decode "Basic dTpw" ("u", "p")
call-passed_example = call-passed b64decode "u" "p" (http "/devices") "Basic dTpw" refl refl right

call-type_error_example :
    call b64decode (record { user = some "u"; password = some "é" }) websocket "Basic dTp4"
    ≡ type_error
call-type_error_example =
    call-type_error b64decode "u" "é" websocket "Basic dTp4" "dTp4" "u:x" refl refl gated plain
      accented prefix refl split
