-- ===== src/NovaRequest/Tests.antt =====
-- Runs of nova_request.py, and its theorem at a concrete input.
use google_find_my_tools_web.Prelude.{zero, ◌-◌, refl, ◌≤◌, ◌≡◌, nat_eq}
use google_find_my_tools_web.NovaRequest.{
  true, suc, ℕ, Posted, response, network_error, content, failed_with, is_transient, outcome,
  nova_request,
}
use google_find_my_tools_web.NovaRequest.Retries.{nova_request-posts}

program : Unit {0}
unfolding is_transient outcome nova_request
program = tt

-- The connection breaks once, then the service answers.
abbrev recovering : ℕ → Posted
recovering zero = network_error "aborted"
recovering (suc i) = response 200 "0a"

second_try : nova_request recovering ≡ (content "0a", 2)
unfolding program
second_try = refl

gives_up : nova_request (λ i. response 503 "") ≡ (failed_with 503, 3)
unfolding program
gives_up = refl

nova_request-posts_example :
    let (result, posts) = nova_request recovering in
    (1 ≤ posts)
    × (posts ≤ 3)
    × (result ≡ outcome (recovering (posts - 1)))
    × ((i : ℕ) → suc (suc i) ≤ posts → is_transient (recovering i) ≡ true)
    × (is_transient (recovering (posts - 1)) ≡ true → posts ≡ 3)
nova_request-posts_example = nova_request-posts recovering
