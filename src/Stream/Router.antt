-- ===== src/Stream/Router.antt =====
-- stream/DynamicRouter.cpp
pub mod Routes
use mathlib.Core.List.{append-nil, append_assoc}
use pothos_blocks.Shared.{
  ℕ, zero, suc, ◌+◌, ◌<◌, ◌≤◌, ◌≡◌, ◌≢◌, refl, sym, ap, ◌∙◌, Bool, true, false, List, [], ◌∷◌, ◌++◌,
  length, set, get_or, get_elem?, max, Option, none, some, ◌==◌, if◌then◌else◌, arith, Bool-cases,
  inl, inr, Outcome, returns, throws,
}
use pothos_blocks.Shared.Int.{ℤ, pos, negsuc}
use pothos_blocks.Pothos.{Label, Message}

pub data Error : Type 0 where
  port_access : Error

-- What waits at an input port, or was posted on an output port.
pub record Traffic : Type 0 where
  pub messages : List Message
  pub labels : List Label
  pub buffer : List ℕ

-- The members: the numbers of ports and `_destinations`.
pub record Router : Type 0 where
  pub num_inputs : ℕ
  pub num_outputs : ℕ
  pub destinations : List ℤ

-- the constructor
unfoldable pub make : Router
make = record { num_inputs = 1; num_outputs = 1; destinations = [] }

-- `setNumPorts` only adds ports.
unfoldable pub set_num_ports : ℕ → ℕ → Router → Router
set_num_ports n m s = record s {
  num_inputs = max s.num_inputs n;
  num_outputs = max s.num_outputs m;
}

unfoldable pub set_destinations : List ℤ → Router → Router
set_destinations ds s = record s { destinations = ds }

-- the output port of an input port; a negative destination is none
unfoldable pub destination : Router → ℕ → Option ℕ
destination s i = elim (get_elem? s.destinations i) [
  | none ↦ none
  | some d ↦ elim d [ pos n ↦ some n | negsuc n ↦ none ]
]

abbrev first_message : List Message → List Message
first_message [] = []
first_message (m ∷ ms) = m ∷ []

abbrev later_messages : List Message → List Message
later_messages [] = []
later_messages (m ∷ ms) = ms

-- What is taken from an input port in a call of `work`: a message, all labels, and the buffer.
unfoldable pub taken : Traffic → Traffic
taken t = record t { messages = first_message t.messages }

-- what is left at the input port
unfoldable pub left : Traffic → Traffic
left t = record { messages = later_messages t.messages; labels = []; buffer = [] }

-- More is posted on an output port.
unfoldable pub add : Traffic → Traffic → Traffic
add u t = record {
  messages = u.messages ++ t.messages;
  labels = u.labels ++ t.labels;
  buffer = u.buffer ++ t.buffer;
}

-- The body of the loop over the input ports, for a port with this destination: what was posted on
-- each output port so far, and afterwards. `output(dest)` throws where there is no such port.
unfoldable pub route : Option ℕ → Traffic → List Traffic → Outcome Error (List Traffic)
unfolding taken add
route none t outs = returns outs
route (some n) t outs = elim (get_elem? outs n) [
  | none ↦ throws port_access
  | some u ↦ returns (set outs n (add u (taken t)))
]

-- The loop of `work` over the input ports from port `i` on: the output ports, and what is left at the
-- inputs. Where it throws, the ports from there on keep what they have.
unfoldable pub route_all :
    Router
    → ℕ
    → List Traffic
    → List Traffic
    → Outcome Error (Unit {0}) × List Traffic × List Traffic
unfolding destination route left
route_all s i [] outs = (returns tt, outs, [])
route_all s i (t ∷ ts) outs = elim (route (destination s i) t outs) [
  | throws e ↦ (throws e, outs, t ∷ ts)
  | returns outs' ↦
      let (o, outs'', rest) = route_all s (i + 1) ts outs' in (o, outs'', left t ∷ rest)
]

-- `work`
unfoldable pub work :
    Router → List Traffic → List Traffic → Outcome Error (Unit {0}) × List Traffic × List Traffic
unfolding route_all
work s ins outs = route_all s 0 ins outs
