-- ===== src/Stream/Gateway.antt =====
-- stream/Gateway.cpp
use Prim.Native.String.{String}
use mathlib.Core.List.{append-nil, append_assoc}
use text.Mathlib.Text.{◌==◌ as str_eq}
use pothos_blocks.Shared.{
  ℕ, ◌≡◌, Bool, true, false, not, List, [], ◌∷◌, ◌++◌, if◌then◌else◌, Outcome, returns, throws,
  arith, sym, ◌∙◌, ◌⊎◌,
}

pub data Error : Type 0 where
  unknown_mode : Error

pub record Gateway : Type 0 where
  pub mode : String
  pub forward_mode : Bool
  pub backup_mode : Bool
  pub drop_mode : Bool

-- `setMode`: the result, and the block as it is left.
unfoldable pub set_mode : String → Gateway → Outcome Error (Unit {0}) × Gateway
set_mode mode s =
    let f = str_eq mode "FORWARD" in
    let b = str_eq mode "BACKUP" in
    let d = str_eq mode "DROP" in
    if f
    then (
      returns tt,
      record { mode = mode; forward_mode = true; backup_mode = false; drop_mode = false },
    )
    else (if b
        then (
          returns tt,
          record { mode = mode; forward_mode = false; backup_mode = true; drop_mode = false },
        )
        else (if d
            then (
              returns tt,
              record { mode = mode; forward_mode = false; backup_mode = false; drop_mode = true },
            )
            else (
              throws unknown_mode,
              record { mode = mode; forward_mode = false; backup_mode = false; drop_mode = false },
            )))

-- The constructor, which calls `setMode("FORWARD")`.
unfoldable pub make : Outcome Error (Unit {0}) × Gateway
unfolding set_mode
make =
    set_mode "FORWARD"
      (record { mode = ""; forward_mode = false; backup_mode = false; drop_mode = false })

-- The ports: messages and labels, numbered, and bytes, waiting at the input and passed to the output.
-- The framework passes the labels of a buffer on, so that `work` posts none.
pub record Ports : Type 0 where
  pub messages : List ℕ
  pub labels : List ℕ
  pub buffer : List ℕ
  pub sent_messages : List ℕ
  pub sent : List ℕ

-- the loop that pops messages and posts them
unfoldable pub forward_messages : List ℕ → List ℕ → List ℕ
forward_messages [] sent = sent
forward_messages (m ∷ ms) sent = forward_messages ms (sent ++ (m ∷ []))

unfoldable pub work : Gateway → Ports → Ports
unfolding forward_messages
work s p =
    if s.backup_mode
    then p
    else (if s.drop_mode
        then record p { messages = []; labels = []; buffer = [] }
        else (if not s.forward_mode then p else record p {
          messages = [];
          sent_messages = forward_messages p.messages p.sent_messages;
          sent = p.sent ++ p.buffer;
          buffer = [];
        }))

pub forward_messages_lem : (ms sent : List ℕ) → forward_messages ms sent ≡ sent ++ ms
unfolding forward_messages
forward_messages_lem [] sent = sym (append-nil sent)
forward_messages_lem (m ∷ ms) sent =
    forward_messages_lem ms (sent ++ (m ∷ [])) ∙ append_assoc sent (m ∷ []) ms

-- Whatever mode is asked for, known or unknown, if it is not DROP then the next call of `work` loses
-- no message, label or byte and keeps their order: what was sent before and what was waiting is
-- what is sent afterwards and what is still waiting. If it is FORWARD, nothing is left waiting
-- but the labels.
pub set_mode-work :
    (mode : String) (s : Gateway) (p : Ports)
    → str_eq mode "DROP" ≡ false
    → let w = work (set_mode mode s).1 p in
      (w.sent_messages ++ w.messages ≡ p.sent_messages ++ p.messages)
      × (w.sent ++ w.buffer ≡ p.sent ++ p.buffer)
      × (w.labels ≡ p.labels)
      × (((w.messages ≡ []) × (w.buffer ≡ [])) ⊎ (str_eq mode "FORWARD" ≡ false))
unfolding work set_mode
set_mode-work mode s p h =
    let m =
      append-nil (forward_messages p.messages p.sent_messages)
      ∙ forward_messages_lem p.messages p.sent_messages in
    let b = append-nil (p.sent ++ p.buffer) in ground (arith, m, b, h)
