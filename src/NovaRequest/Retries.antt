-- ===== src/NovaRequest/Retries.antt =====
-- How often NovaApi/nova_request.py posts, and whose answer it returns.
use google_find_my_tools_web.Prelude.{
  nat_beq_iff, ap, zero, inr, ◌-◌, inl, ◌≡◌, ◌+◌, Bool-cases, ◌≤◌, arith,
}
use google_find_my_tools_web.NovaRequest.{
  false, Bool, nat_beq, true, suc, ℕ, nova_request_retries, Posted, Result, is_transient, outcome,
  post_from, nova_request,
}

-- The run of posts from a number on.
record Runs (post : ℕ → Posted) (sent retries : ℕ) (r : Result × ℕ) : Type 0 where
  some_post : suc sent ≤ r.1
  few : r.1 ≤ sent + retries + 1
  last : r.0 ≡ outcome (post (r.1 - 1))
  before : (i : ℕ) → sent ≤ i → suc (suc i) ≤ r.1 → is_transient (post i) ≡ true
  stops : is_transient (post (r.1 - 1)) ≡ true → r.1 ≡ sent + retries + 1

settled : {a b : Bool} → a ≡ b → a ≡ false → b ≡ true → ⊥
settled e f g = ground arith

post_from-Runs :
    (post : ℕ → Posted) (sent retries : ℕ) → Runs post sent retries (post_from post sent retries)
unfolding post_from
post_from-Runs post sent zero = record {
  some_post = omega arith;
  few = omega arith;
  last = ap (λ i. outcome (post i)) (omega arith);
  before = λ i h k. absurd (omega arith);
  stops = λ t. omega arith;
}
post_from-Runs post sent (suc retries) = elim (Bool-cases (is_transient (post sent))) [
  | inl again ↦
      let r = post_from-Runs post (sent + 1) retries in
      rw again (record {
        some_post = omega (arith, r.some_post);
        few = omega (arith, r.few);
        last = r.last;
        before = λ i h k. elim (Bool-cases (nat_beq i sent)) [
          | inl first ↦ rw ((nat_beq_iff i sent).0 first) again
          | inr later ↦ r.before i (ground arith) k
        ];
        stops = λ t. omega (arith, r.stops t);
      })
  | inr done ↦ rw done (record {
    some_post = omega arith;
    few = omega arith;
    last = ap (λ i. outcome (post i)) (omega arith);
    before = λ i h k. absurd (omega arith);
    stops = λ t.
        let same : is_transient (post sent) ≡ is_transient (post (sent + 1 - 1)) =
          ap (λ i. is_transient (post i)) (omega arith) in
        absurd (settled same done t);
  })
]

-- A request is posted at most three times. The result is the outcome of the last post; every post
-- before it met a transient failure, and so did the last one only if it is the third.
pub nova_request-posts :
    (post : ℕ → Posted)
    → let (result, posts) = nova_request post in
      (1 ≤ posts)
      × (posts ≤ 3)
      × (result ≡ outcome (post (posts - 1)))
      × ((i : ℕ) → suc (suc i) ≤ posts → is_transient (post i) ≡ true)
      × (is_transient (post (posts - 1)) ≡ true → posts ≡ 3)
unfolding nova_request
nova_request-posts post =
    let r = post_from-Runs post 0 nova_request_retries in
    (r.some_post, r.few, r.last, (λ i h. r.before i (omega arith) h), r.stops)
