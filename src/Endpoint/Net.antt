-- ===== src/Endpoint/Net.antt =====
-- What the endpoint is built on and does not implement: the stream socket behind
-- `PothosPacketSocketEndpointInterface`.
use pothos_blocks.Shared.{ℕ, ◌≤◌, ◌<◌, ◌≡◌, Bool, true, List, ◌++◌, length, take, drop}

-- What a call of the socket gives: a value, a negative return code, or an exception.
pub data Ret (A : Type 0) : Type 0 where
  moved : A → Ret A
  failed : Ret A
  raised : Ret A

-- `PothosPacketSocketEndpointInterface`: `isRecvReady`, `send` with its hint that more follows, and
-- `recv` of at most so many bytes, with the MSG_WAITALL flag.
pub record Iface : Type 1 where
  pub Sock : Type 0
  pub is_recv_ready : Sock → Ret Bool × Sock
  pub send : Sock → List ℕ → Bool → Ret ℕ × Sock
  pub recv : Sock → ℕ → Bool → Ret (List ℕ) × Sock

-- A healthy stream socket: what was given to it so far, what is still to be read from it, and how
-- its calls move bytes. A call of `send` takes at least one of the bytes that it is offered, and
-- all of them where these are no more than 16; a
-- call of `recv` gives at least one byte where enough have come in, or all with MSG_WAITALL.
pub record IsStream (net : Iface) : Type 1 where
  pub sent : net.Sock → List ℕ
  pub incoming : net.Sock → List ℕ
  pub send_moves :
      (s : net.Sock) (bs : List ℕ) (more : Bool)
      → 0 < length bs
      → (k : ℕ) × (s' : net.Sock) × (net.send s bs more ≡ (moved k, s'))
        × (0 < k)
        × (k ≤ length bs)
        × (length bs ≤ 16 → k ≡ length bs)
        × (sent s' ≡ sent s ++ take k bs)
        × (incoming s' ≡ incoming s)
  pub recv_moves :
      (s : net.Sock) (n : ℕ) (wait : Bool)
      → 0 < n
      → n ≤ length (incoming s)
      → (k : ℕ) × (s' : net.Sock) × (net.recv s n wait ≡ (moved (take k (incoming s)), s'))
        × (0 < k)
        × (k ≤ n)
        × (wait ≡ true → k ≡ n)
        × (sent s' ≡ sent s)
        × (incoming s' ≡ drop k (incoming s))
  pub ready_moves :
      (s : net.Sock)
      → (s' : net.Sock) × (net.is_recv_ready s ≡ (moved true, s'))
        × (sent s' ≡ sent s)
        × (incoming s' ≡ incoming s)
