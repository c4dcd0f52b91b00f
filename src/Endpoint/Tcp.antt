-- ===== src/Endpoint/Tcp.antt =====
-- The TCP implementation of `PothosPacketSocketEndpointInterface`, and the constructor and destructor of
-- the endpoint. The sockets of Poco are a parameter.
use Prim.Native.String.{String}
use text.Mathlib.Text.{◌==◌ as str_eq}
use pothos_blocks.Shared.{
  ℕ, ◌-◌, ◌%◌, ◌^◌, ◌<◌, length, ltb, arith, ◌≡◌, refl, Bool, true, false, ◌&&◌, List, Option, none,
  some, if◌then◌else◌, Outcome, returns, throws,
}
use pothos_blocks.Shared.Int.{ℤ, pos, negsuc}
use pothos_blocks.Endpoint.Types.{State, listen, closed, Impl}
use pothos_blocks.ByteOrder.{ByteOrder}
use pothos_blocks.Endpoint.Comms.{close_comms}
use pothos_blocks.Endpoint.Net.{Ret, moved, failed, raised, Iface}

-- `Poco::Net::ServerSocket` and `Poco::Net::StreamSocket`, and the network behind them; `none` and
-- `raised` stand for an exception. The sockets get the length as an `int`, beside the bytes.
pub record Poco : Type 1 where
  pub Network : Type 0
  pub Address : Type 0
  pub Server : Type 0
  pub Client : Type 0
  -- `StreamSocket()`, which is not connected
  pub unconnected : Client
  pub serve : Address → Network → Option Server × Network
  pub connect : Address → Network → Option Client × Network
  pub set_no_delay : Client → Network → Option (Unit {0}) × Network
  pub poll_server : Server → Network → Ret Bool × Network
  pub accept : Server → Network → Option Client × Network
  pub poll_client : Client → Network → Ret Bool × Network
  pub send_bytes : Client → List ℕ → ℤ → Bool → Network → Ret ℕ × Network
  pub receive_bytes : Client → ℤ → Bool → Network → Ret (List ℕ) × Network
  pub close_client : Client → Network → Network
  pub close_server : Server → Network → Network

-- `int(length)`, for an `int` of 32 bits
unfoldable pub int_of : ℕ → ℤ
int_of n = let low = n % 2 ^ 32 in if ltb low (2 ^ 31) then pos low else negsuc (2 ^ 32 - 1 - low)

-- a length below 2^31 is passed on as it is
pub int_of-lt : (n : ℕ) → n < 2 ^ 31 → int_of n ≡ pos n
unfolding int_of
int_of-lt n h =
    let low : n % 2 ^ 32 ≡ n = omega (arith, h) in
    let small : ltb n (2 ^ 31) ≡ true = ground (arith, h) in rw low (rw small refl)

pub data Error : Type 0 where
  poco_error : Error
  unknown_combination : Error

module _ (poco : Poco) where
  -- The members, with the network; `server_sock` is `none` where the interface is no server.
  pub record Tcp : Type 0 where
    pub connected : Bool
    pub server_sock : Option poco.Server
    pub client_sock : poco.Client
    pub network : poco.Network

  abbrev pub served : Option poco.Server × poco.Network → Outcome Error Tcp × poco.Network
  served (none, n) = (throws poco_error, n)
  served (some s, n) = (
    returns (record {
      connected = false;
      server_sock = some s;
      client_sock = poco.unconnected;
      network = n;
    }),
    n,
  )

  abbrev pub client_of :
      poco.Client → Option (Unit {0}) × poco.Network → Outcome Error Tcp × poco.Network
  client_of c (none, n) = (throws poco_error, n)
  client_of c (some x, n) =
      (returns (record { connected = true; server_sock = none; client_sock = c; network = n }), n)

  abbrev pub client_made : Option poco.Client × poco.Network → Outcome Error Tcp × poco.Network
  client_made (none, n) = (throws poco_error, n)
  client_made (some c, n) = client_of c (poco.set_no_delay c n)

  -- the constructor
  unfoldable pub make : poco.Address → Bool → poco.Network → Outcome Error Tcp × poco.Network
  make address true n = served (poco.serve address n)
  make address false n = client_made (poco.connect address n)

  abbrev pub close_server_of : Option poco.Server → poco.Network → poco.Network
  close_server_of none n = n
  close_server_of (some s) n = poco.close_server s n

  -- the destructor
  unfoldable pub destroy : Tcp → poco.Network
  destroy t = close_server_of t.server_sock (poco.close_client t.client_sock t.network)

  abbrev pub no_delay : Tcp → Option (Unit {0}) × poco.Network → Ret Bool × Tcp
  no_delay t (none, n) = (raised, record t { network = n })
  no_delay t (some x, n) = (moved false, record t { connected = true; network = n })

  abbrev pub accepted : Tcp → Option poco.Client × poco.Network → Ret Bool × Tcp
  accepted t (none, n) = (raised, record t { network = n })
  accepted t (some c, n) = no_delay (record t { client_sock = c }) (poco.set_no_delay c n)

  abbrev pub polled : Tcp → poco.Server → Ret Bool × poco.Network → Ret Bool × Tcp
  polled t s (moved true, n) = accepted t (poco.accept s n)
  polled t s (moved false, n) = (moved false, record t { network = n })
  polled t s (failed, n) = (failed, record t { network = n })
  polled t s (raised, n) = (raised, record t { network = n })

  -- A server waits for its client; where there is no server, the poll of the empty socket raises.
  abbrev pub wait_for_client : Tcp → Option poco.Server → Ret Bool × Tcp
  wait_for_client t none = (raised, t)
  wait_for_client t (some s) = polled t s (poco.poll_server s t.network)

  abbrev pub with_network : {A : Type 0} → Tcp → Ret A × poco.Network → Ret A × Tcp
  with_network t (r, n) = (r, record t { network = n })

  -- `isRecvReady`
  unfoldable pub is_recv_ready : Tcp → Ret Bool × Tcp
  is_recv_ready t =
      if t.connected
      then with_network t (poco.poll_client t.client_sock t.network)
      else wait_for_client t t.server_sock

  unfoldable pub send : Tcp → List ℕ → Bool → Ret ℕ × Tcp
  unfolding int_of
  send t bytes more =
      with_network t (poco.send_bytes t.client_sock bytes (int_of (length bytes)) more t.network)

  unfoldable pub recv : Tcp → ℕ → Bool → Ret (List ℕ) × Tcp
  unfolding int_of
  recv t n wait = with_network t (poco.receive_bytes t.client_sock (int_of n) wait t.network)

  -- the interface that the endpoint uses
  abbrev pub tcp : Iface
  tcp = record { Sock = Tcp; is_recv_ready = is_recv_ready; send = send; recv = recv }

  -- A connected interface stays with its client.
  pub is_recv_ready-connected :
      (t : Tcp)
      → t.connected ≡ true
      → ((is_recv_ready t).1.connected ≡ true)
        × ((is_recv_ready t).1.client_sock ≡ t.client_sock)
        × ((is_recv_ready t).0 ≡ (poco.poll_client t.client_sock t.network).0)
  unfolding is_recv_ready
  is_recv_ready-connected t on = simp (on) (refl, refl, refl)

  -- A server that has a client waiting takes it, gives that there is nothing to read yet, and is
  -- connected.
  pub is_recv_ready-accepts :
      (t : Tcp) (s : poco.Server) (c : poco.Client) (n₁ n₂ n₃ : poco.Network)
      → t.connected ≡ false
      → t.server_sock ≡ some s
      → poco.poll_server s t.network ≡ (moved true, n₁)
      → poco.accept s n₁ ≡ (some c, n₂)
      → poco.set_no_delay c n₂ ≡ (some tt, n₃)
      → is_recv_ready t
        ≡ (moved false, record t { connected = true; client_sock = c; network = n₃ })
  unfolding is_recv_ready
  is_recv_ready-accepts t s c n₁ n₂ n₃ off server polled took set =
      simp (off, server, polled, took, set) refl

-- What the constructor of the endpoint makes of its option, the scheme and the address of the URI.
pub data Wanted : Type 0 where
  disconnected : Wanted
  bind : Wanted
  connect : Wanted
  unknown : Wanted

unfoldable pub wanted : String → String → Wanted
wanted scheme opt =
    if str_eq opt "DISCONNECT"
    then disconnected
    else if str_eq scheme "tcp" && str_eq opt "BIND"
    then bind
    else if str_eq scheme "tcp" && str_eq opt "CONNECT"
    then connect
    else unknown

-- the state in which the endpoint begins; the constructor of `Impl` has EP_STATE_CLOSED
unfoldable pub initial_state : String → State
initial_state opt = if str_eq opt "BIND" then listen else closed

module _ (poco : Poco) where
  abbrev pub made :
      Outcome Error (Tcp poco) × poco.Network → Outcome Error (Option (Tcp poco)) × poco.Network
  made (throws e, n) = (throws e, n)
  made (returns t, n) = (returns (some t), n)

  -- The endpoint's interface, or none for DISCONNECT; the address is of the URI, or none where Poco does
  -- not read it.
  unfoldable pub make_iface :
      Wanted → Option poco.Address → poco.Network → Outcome Error (Option (Tcp poco)) × poco.Network
  unfolding make
  make_iface disconnected address n = (returns none, n)
  make_iface w none n = (throws poco_error, n)
  make_iface unknown (some a) n = (throws unknown_combination, n)
  make_iface bind (some a) n = made (make poco a true n)
  make_iface connect (some a) n = made (make poco a false n)

  -- The endpoint's destructor, where it has an interface: whatever `closeComms` throws is dropped.
  unfoldable pub destroy_endpoint : ByteOrder → ℕ → Impl (Tcp poco) → poco.Network
  unfolding close_comms destroy
  destroy_endpoint bo ticks w =
      let (o, w') = close_comms bo (tcp poco) ticks w in destroy poco w'.iface
