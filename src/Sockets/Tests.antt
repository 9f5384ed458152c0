-- ===== src/Sockets/Tests.antt =====
-- A run of ws.py.
use google_find_my_tools_web.Prelude.{refl, ◌≡◌, [], ◌∷◌, ltb, nat_eq}
use google_find_my_tools_web.Sockets.{connect, disconnect, broadcast}

program : Unit {0}
unfolding connect disconnect broadcast
program = tt

dropped : broadcast (λ c. ltb c 2) (connect 2 (connect 1 [])) ≡ 1 ∷ []
unfolding program
dropped = refl
