-- ===== src/Endpoint/States/Handshake.antt =====
-- Two endpoints that exchange packets over two ordered channels, in every interleaving.
use pothos_blocks.Shared.{
  ℕ, zero, suc, ◌+◌, ◌<◌, ◌≡◌, refl, ap, ◌⊎◌, inl, inr, List, [], ◌∷◌, ◌++◌, arith,
}
use pothos_blocks.Endpoint.Types.{
  flag_syn, flag_ack, State, listen, syn_sent, syn_received, established,
}
use pothos_blocks.Endpoint.States.{react}

-- The states of the two endpoints, and the flags of the packets under way.
pub record System : Type 0 where
  pub client : State
  pub server : State
  pub to_server : List ℕ
  pub to_client : List ℕ

-- One endpoint receives the oldest packet under way to it, and handles it.
pub data Step (y : System) : System → Type 0 where
  to_server :
      (f : ℕ) (rest : List ℕ)
      → y.to_server ≡ f ∷ rest
      → Step y (record {
        client = y.client;
        server = (react y.server f).target;
        to_server = rest;
        to_client = y.to_client ++ (react y.server f).replies;
      })
  to_client :
      (f : ℕ) (rest : List ℕ)
      → y.to_client ≡ f ∷ rest
      → Step y (record {
        client = (react y.client f).target;
        server = y.server;
        to_server = y.to_server ++ (react y.client f).replies;
        to_client = rest;
      })

-- `Run x n y`: `n` packets were handled on the way from `x` to `y`.
pub data Run (x : System) : ℕ → System → Type 0 where
  here : Run x zero x
  next : {n : ℕ} {y z : System} → Run x n y → Step y z → Run x (suc n) z

abbrev pub at : State → State → List ℕ → List ℕ → System
at c s ab ba = record { client = c; server = s; to_server = ab; to_client = ba }

-- What `openComms` of a closed endpoint leaves, against an endpoint that listens.
abbrev pub opening : System
opening = at syn_sent listen (flag_syn ∷ []) []

abbrev Opening : ℕ → System → Type 0
Opening n y =
    ((n ≡ 0) × (y ≡ opening))
    ⊎ ((n ≡ 1) × (y ≡ at syn_sent syn_received [] ((flag_syn + flag_ack) ∷ [])))
    ⊎ ((n ≡ 2) × (y ≡ at established syn_received (flag_ack ∷ []) []))
    ⊎ ((n ≡ 3) × (y ≡ at established established [] []))

Opening-step : {n : ℕ} {y z : System} → Step y z → Opening n y → Opening (suc n) z
unfolding react
Opening-step (to_server f rest e) h = ground arith
Opening-step (to_client f rest e) h = ground arith

Opening-Run : {n : ℕ} {y : System} → Run opening n y → Opening n y
Opening-Run here = inl (refl, refl)
Opening-Run (next r st) = Opening-step st (Opening-Run r)

Opening-next : {n : ℕ} {y : System} → Opening n y → n < 3 → (z : System) × Step y z
Opening-next (inl (_, e)) h = (_, to_server flag_syn [] (ap (λ s. s.to_server) e))
Opening-next (inr (inl (_, e))) h =
    (_, to_client (flag_syn + flag_ack) [] (ap (λ s. s.to_client) e))
Opening-next (inr (inr (inl (_, e)))) h = (_, to_server flag_ack [] (ap (λ s. s.to_server) e))
Opening-next (inr (inr (inr (n, e)))) h = absurd (omega arith)

Opening-ends :
    {n : ℕ} {y : System}
    → Opening n y
    → ((n ≡ 3) × (y ≡ at established established [] [])) ⊎ (n < 3)
Opening-ends (inl (n, _)) = inr (omega arith)
Opening-ends (inr (inl (n, _))) = inr (omega arith)
Opening-ends (inr (inr (inl (n, _)))) = inr (omega arith)
Opening-ends (inr (inr (inr h))) = inl h

-- The opening handshake ends after exactly three packets, whatever the interleaving, with both sides
-- established and nothing under way; while fewer were handled, some packet can be.
pub handshake_completes :
    {n : ℕ} {y : System}
    → Run opening n y
    → ((n ≡ 3) × (y ≡ at established established [] [])) ⊎ ((n < 3) × ((z : System) × Step y z))
handshake_completes {n} {y} r = elim (Opening-ends (Opening-Run r)) [
  | inl done ↦ inl done
  | inr before ↦ inr (before, Opening-next (Opening-Run r) before)
]
