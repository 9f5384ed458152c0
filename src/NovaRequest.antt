-- ===== src/NovaRequest.antt =====
-- NovaApi/nova_request.py: the loop that posts a request, and what it returns. What `requests.post`
-- does at each try is an argument; an exception that is no network error leaves the loop at once. The
-- turns that are waited for and the pauses between tries are left out.
pub mod Retries
mod Tests
use google_find_my_tools_web.Prelude.{
  zero, [], false, suc, ◌+◌, ◌∷◌, nat_beq, true, ℕ, String, List, Bool, if◌then◌else◌, contains,
  nat_eq,
}

abbrev pub nova_request_retries : ℕ
nova_request_retries = 2

abbrev pub nova_retryable_status_codes : List ℕ
nova_retryable_status_codes = 500 ∷ 502 ∷ 503 ∷ 504 ∷ []

pub data Posted : Type 0 where
  response : (status_code : ℕ) (body : String) → Posted
  network_error : String → Posted
  other_error : String → Posted

pub data Result : Type 0 where
  content : String → Result
  failed_with : (status_code : ℕ) → Result
  raised : String → Result

-- What the loop tries again, if it may.
pub is_transient : Posted → Bool
is_transient (response status_code body) = contains nova_retryable_status_codes status_code
is_transient (network_error e) = true
is_transient (other_error e) = false

-- What becomes of the post that ends the loop.
pub outcome : Posted → Result
outcome (response status_code body) =
    if nat_beq status_code 200 then content body else failed_with status_code
outcome (network_error e) = raised e
outcome (other_error e) = raised e

-- The loop, with the number of posts so far and of retries left: the result, and all posts.
post_from : (post : ℕ → Posted) → (sent retries : ℕ) → Result × ℕ
unfolding is_transient outcome
post_from post sent zero = (outcome (post sent), sent + 1)
post_from post sent (suc retries) =
    let later = post_from post (sent + 1) retries in
    if is_transient (post sent) then later else (outcome (post sent), sent + 1)

pub nova_request : (post : ℕ → Posted) → Result × ℕ
unfolding post_from
nova_request post = post_from post 0 nova_request_retries
