-- ===== src/Endpoint/Comms/Closing.antt =====
-- The closing handshake of two established endpoints, each of which may start it, in every
-- interleaving.
use pothos_blocks.Shared.{ℕ, ◌≡◌, refl, ◌⊎◌, inl, inr, List, [], ◌∷◌, ◌++◌, arith}
use pothos_blocks.Endpoint.Types.{
  flag_fin, flag_ack, State, established, fin_wait_1, fin_wait_2, close_wait, closing, last_ack,
  time_wait, closed,
}
use pothos_blocks.Endpoint.States.{react}
use pothos_blocks.Endpoint.States.Handshake.{System, Step, at}
use pothos_blocks.Endpoint.Comms.{depart}

-- A packet is handled, or `closeComms` is called on a side that is open.
pub data CloseStep (y : System) : System → Type 0 where
  packet : {z : System} → Step y z → CloseStep y z
  server_leaves :
      (y.server ≡ established) ⊎ (y.server ≡ close_wait)
      → CloseStep y (record {
        client = y.client;
        server = (depart y.server).target;
        to_server = y.to_server;
        to_client = y.to_client ++ (depart y.server).replies;
      })
  client_leaves :
      (y.client ≡ established) ⊎ (y.client ≡ close_wait)
      → CloseStep y (record {
        client = (depart y.client).target;
        server = y.server;
        to_server = y.to_server ++ (depart y.client).replies;
        to_client = y.to_client;
      })

pub data CloseReach (x : System) : System → Type 0 where
  here : CloseReach x x
  next : {y z : System} → CloseReach x y → CloseStep y z → CloseReach x z

abbrev pub connected : System
connected = at established established [] []

abbrev fin : ℕ
fin = flag_fin

abbrev ack : ℕ
ack = flag_ack

-- The configurations in which the client is not ahead of the server, and the mirrored ones.
abbrev Half : State → State → List ℕ → List ℕ → Type 0
Half c s ab ba =
    ((c ≡ fin_wait_1) × (s ≡ established) × (ab ≡ fin ∷ []) × (ba ≡ []))
    ⊎ ((c ≡ fin_wait_1) × (s ≡ close_wait) × (ab ≡ []) × (ba ≡ ack ∷ []))
    ⊎ ((c ≡ fin_wait_2) × (s ≡ close_wait) × (ab ≡ []) × (ba ≡ []))
    ⊎ ((c ≡ fin_wait_1) × (s ≡ last_ack) × (ab ≡ []) × (ba ≡ ack ∷ fin ∷ []))
    ⊎ ((c ≡ fin_wait_2) × (s ≡ last_ack) × (ab ≡ []) × (ba ≡ fin ∷ []))
    ⊎ ((c ≡ time_wait) × (s ≡ last_ack) × (ab ≡ ack ∷ []) × (ba ≡ []))
    ⊎ ((c ≡ time_wait) × (s ≡ closed) × (ab ≡ []) × (ba ≡ []))
    ⊎ ((c ≡ fin_wait_1) × (s ≡ closing) × (ab ≡ []) × (ba ≡ fin ∷ ack ∷ []))
    ⊎ ((c ≡ time_wait) × (s ≡ closing) × (ab ≡ ack ∷ []) × (ba ≡ []))

abbrev Both : State → State → List ℕ → List ℕ → Type 0
Both c s ab ba =
    ((c ≡ established) × (s ≡ established) × (ab ≡ []) × (ba ≡ []))
    ⊎ ((c ≡ fin_wait_1) × (s ≡ fin_wait_1) × (ab ≡ fin ∷ []) × (ba ≡ fin ∷ []))
    ⊎ ((c ≡ closing) × (s ≡ closing) × (ab ≡ ack ∷ []) × (ba ≡ ack ∷ []))
    ⊎ ((c ≡ time_wait) × (s ≡ time_wait) × (ab ≡ []) × (ba ≡ []))

abbrev Closing : System → Type 0
Closing y =
    Both y.client y.server y.to_server y.to_client
    ⊎ Half y.client y.server y.to_server y.to_client
    ⊎ Half y.server y.client y.to_client y.to_server

Closing-step : {y z : System} → CloseStep y z → Closing y → Closing z
unfolding react depart
Closing-step (packet (Step.to_server f rest e)) h = ground arith
Closing-step (packet (Step.to_client f rest e)) h = ground arith
Closing-step (server_leaves e) h = ground arith
Closing-step (client_leaves e) h = ground arith

Closing-Reach : {y : System} → CloseReach connected y → Closing y
Closing-Reach here = inl (inl (refl, refl, refl, refl))
Closing-Reach (next r st) = Closing-step st (Closing-Reach r)

-- Nothing is under way, and each side is closed or waits for its time to run out.
abbrev pub Ended : System → Type 0
Ended y =
    ((y.client ≡ time_wait) ⊎ (y.client ≡ closed))
    × ((y.server ≡ time_wait) ⊎ (y.server ≡ closed))
    × (y.to_server ≡ [])
    × (y.to_client ≡ [])

abbrev CanStep : System → Type 0
CanStep y =
    ((f : ℕ) × (rest : List ℕ) × (y.to_server ≡ f ∷ rest))
    ⊎ ((f : ℕ) × (rest : List ℕ) × (y.to_client ≡ f ∷ rest))
    ⊎ ((y.server ≡ established) ⊎ (y.server ≡ close_wait))
    ⊎ ((y.client ≡ established) ⊎ (y.client ≡ close_wait))

CanStep-step : (y : System) → CanStep y → (z : System) × CloseStep y z
CanStep-step y (inl (f, rest, e)) = (_, packet (Step.to_server f rest e))
CanStep-step y (inr (inl (f, rest, e))) = (_, packet (Step.to_client f rest e))
CanStep-step y (inr (inr (inl h))) = (_, server_leaves h)
CanStep-step y (inr (inr (inr h))) = (_, client_leaves h)

Closing-progress : (y : System) → Closing y → Ended y ⊎ CanStep y
Closing-progress y (inl h) = ground arith
Closing-progress y (inr (inl h)) = ground arith
Closing-progress y (inr (inr h)) = ground arith

-- From an open connection, whichever side calls `closeComms` and whenever, also both at once: the
-- closing handshake never gets stuck before both sides are closed or in the final wait with nothing
-- under way.
pub closing_never_stuck :
    {y : System} → CloseReach connected y → Ended y ⊎ ((z : System) × CloseStep y z)
closing_never_stuck {y} r = elim (Closing-progress y (Closing-Reach r)) [
  | inl done ↦ inl done
  | inr can ↦ inr (CanStep-step y can)
]
