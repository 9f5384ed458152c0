-- ===== src/Sockets.antt =====
-- webui/ws.py: the connections of a ConnectionManager, by number. A broadcast is taken to run without
-- another operation in between.
mod Tests
use google_find_my_tools_web.Prelude.{
  inr, nat_beq_iff, inl, Bool-cases, ap, refl, arith, false, not, true, ◌&&◌, nat_beq, [], ◌∷◌, ◌≡◌,
  if◌then◌else◌, Bool, List, ℕ, contains, nat_eq,
}

-- `set.add`
pub connect : ℕ → List ℕ → List ℕ
connect websocket connections =
    if contains connections websocket then connections else websocket ∷ connections

-- `set.discard`
pub disconnect : ℕ → List ℕ → List ℕ
disconnect websocket [] = []
disconnect websocket (other ∷ connections) =
    let rest = disconnect websocket connections in
    if nat_beq other websocket then rest else other ∷ rest

-- The loop over the snapshot; `sends` says whether `send_text` goes through.
send_all : (sends : ℕ → Bool) → (snapshot : List ℕ) → List ℕ → List ℕ
unfolding disconnect
send_all sends [] connections = connections
send_all sends (connection ∷ snapshot) connections =
    send_all sends snapshot
      (if sends connection then connections else disconnect connection connections)

pub broadcast : (sends : ℕ → Bool) → List ℕ → List ℕ
unfolding send_all
broadcast sends connections = send_all sends connections connections

contains-disconnect :
    (websocket other : ℕ) (connections : List ℕ)
    → contains (disconnect websocket connections) other
      ≡ (contains connections other && not (nat_beq other websocket))
unfolding disconnect
contains-disconnect websocket other [] = refl
contains-disconnect websocket other (first ∷ connections) =
    ground (arith, contains-disconnect websocket other connections)

contains-send_all :
    (sends : ℕ → Bool) (snapshot connections : List ℕ) (other : ℕ)
    → contains (send_all sends snapshot connections) other
      ≡ (contains connections other && not (contains snapshot other && not (sends other)))
unfolding send_all
contains-send_all sends [] connections other = ground arith
contains-send_all sends (connection ∷ snapshot) connections other =
    elim (Bool-cases (sends connection)) [
      | inl goes ↦ rw goes (
          ground (
            arith,
            goes,
            contains-send_all sends snapshot connections other,
            nat_beq_iff other connection,
            reach other connection,
          ))
      | inr fails ↦ rw fails (
          ground (
            arith,
            fails,
            contains-send_all sends snapshot (disconnect connection connections) other,
            contains-disconnect connection other connections,
            nat_beq_iff other connection,
            reach other connection,
          ))
    ]
  where
    reach : (i j : ℕ) → i ≡ j → sends i ≡ sends j
    reach i j e = ap sends e

-- A broadcast drops exactly the connections that it cannot send to, and a later one reaches a
-- connection exactly if it was connected.
pub contains-broadcast :
    (sends : ℕ → Bool) (connections : List ℕ) (websocket : ℕ)
    → (contains (broadcast sends connections) websocket
        ≡ (contains connections websocket && sends websocket))
      × (contains (connect websocket connections) websocket ≡ true)
      × (contains (disconnect websocket connections) websocket ≡ false)
unfolding broadcast connect
contains-broadcast sends connections websocket = (
  ground (arith, contains-send_all sends connections connections websocket),
  ground arith,
  ground (arith, contains-disconnect websocket websocket connections),
)
