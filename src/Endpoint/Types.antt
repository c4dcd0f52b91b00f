-- ===== src/Endpoint/Types.antt =====
-- The constants, the header, the states and the private data of network/SocketEndpoint.cpp.
use pothos_blocks.Shared.{ℕ, ◌*◌, ◌/◌, ◌%◌, ◌^◌, Bool, Outcome, returns, throws, ◌==◌}

-- What `Impl::send` and `Impl::recv`, their helpers and the handshakes throw. `net_exception` is
-- an exception of the socket library that passes through.
pub data Error : Type 0 where
  send_header send_payload recv_header recv_payload : Error
  incomplete_header header_word packet_count : Error
  open_failed close_failed : Error
  net_exception out_of_fuel : Error

abbrev pub send_mtu : ℕ
send_mtu = 4096

-- "PTH2"
abbrev pub packet_header_word : ℕ
packet_header_word = 0x50544832

abbrev pub flag_fin : ℕ
flag_fin = 1

abbrev pub flag_syn : ℕ
flag_syn = 2

abbrev pub flag_psh : ℕ
flag_psh = 8

abbrev pub flag_ack : ℕ
flag_ack = 16

abbrev pub flag_flo : ℕ
flag_flo = 32

-- `(flags & flag) != 0`, for a flag that is one bit
abbrev pub has_flag : ℕ → ℕ → Bool
has_flag flags flag = flags / flag % 2 == 1

abbrev pub type_buffer : ℕ
type_buffer = b'B'

abbrev pub header_size : ℕ
header_size = 16

abbrev pub mod16 : ℕ
mod16 = 2 ^ 16

abbrev pub mod32 : ℕ
mod32 = 2 ^ 32

abbrev pub mod64 : ℕ
mod64 = 2 ^ 64

-- `flowControlWindowBytes`
abbrev pub flow_control_window_bytes : ℕ
flow_control_window_bytes = 256 * 1024

-- `EndpointState`
pub data State : Type 0 where
  listen syn_sent syn_received established : State
  fin_wait_1 fin_wait_2 close_wait closing last_ack time_wait closed : State

-- `PothosPacketSocketEndpoint::Impl`, over the state `S` of the socket behind `iface`.
pub record Impl (S : Type 0) : Type 0 where
  pub state : State
  pub last_sent_packet_count : ℕ
  pub next_recv_packet_count : ℕ
  pub bytes_left_in_stream : ℕ
  pub last_type : ℕ
  pub total_bytes_recv : ℕ
  pub total_bytes_sent : ℕ
  pub last_flow_msg_recv : ℕ
  pub last_flow_msg_sent : ℕ
  pub iface : S

-- Code of the endpoint: it changes the data, also where it throws.
abbrev pub M : Type 0 → Type 0 → Type 0
M S A = Impl S → Outcome Error A × Impl S

infixl 5 ◌>>=◌ ◌>>◌
unfoldable pub ◌>>=◌ : {S A B : Type 0} → M S A → (A → M S B) → M S B
◌>>=◌ m f w = let (o, w') = m w in elim o [ returns a ↦ f a w' | throws e ↦ (throws e, w') ]

abbrev pub ◌>>◌ : {S A B : Type 0} → M S A → M S B → M S B
m >> k = m >>= λ _. k

abbrev pub pure : {S A : Type 0} → A → M S A
pure a w = (returns a, w)

abbrev pub throw : {S A : Type 0} → Error → M S A
throw e w = (throws e, w)

abbrev pub modify : {S : Type 0} → (Impl S → Impl S) → M S (Unit {0})
modify f w = (returns tt, f w)

abbrev pub set_state : {S : Type 0} → State → M S (Unit {0})
set_state s = modify (λ w. record w { state = s })
