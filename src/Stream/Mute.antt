-- ===== src/Stream/Mute.antt =====
-- stream/Mute.cpp
use pothos_blocks.Shared.{
  ℕ, ◌*◌, ◌<◌, ◌≡◌, ◌⊎◌, sym, ap, Bool, true, false, [], ◌++◌, length, replicate, arith,
  if◌then◌else◌, ◌==◌,
}
use pothos_blocks.Stream.Gateway.{forward_messages, forward_messages_lem, Ports}

-- `_dtype.size()` and `_mute`. The constructor does not initialise `_mute`, so its value there is an
-- argument.
pub record Mute : Type 0 where
  pub dtype_size : ℕ
  pub mute : Bool

unfoldable pub make : ℕ → Bool → Mute
make dtype_size mute = record { dtype_size = dtype_size; mute = mute }

-- `setMute`: the block, and the value of the signal `muteChanged`
unfoldable pub set_mute : Bool → Mute → Mute × Bool
set_mute mute s = (record s { mute = mute }, mute)

-- `work`, with `elems` the framework's `minElements`
unfoldable pub work : Mute → ℕ → Ports → Ports
unfolding forward_messages
work s elems p =
    if elems == 0
    then p
    else (if s.mute
        then record p { buffer = []; sent = p.sent ++ replicate (elems * s.dtype_size) 0 }
        else record p {
          messages = [];
          sent_messages = forward_messages p.messages p.sent_messages;
          buffer = [];
          sent = p.sent ++ p.buffer;
        })

-- After `setMute`, a call of `work` on whole elements posts as many bytes as came in and leaves none:
-- zeros, with the messages kept waiting, where it is muted, and otherwise the bytes themselves, with
-- all messages forwarded in order.
pub set_mute-work :
    (mute : Bool) (s : Mute) (elems : ℕ) (p : Ports)
    → 0 < elems
    → length p.buffer ≡ elems * s.dtype_size
    → let w = work (set_mute mute s).0 elems p in
      (w.buffer ≡ [])
      × (((mute ≡ true)
            × (w.sent ≡ p.sent ++ replicate (length p.buffer) 0)
            × (w.messages ≡ p.messages)
            × (w.sent_messages ≡ p.sent_messages))
          ⊎ ((mute ≡ false)
              × (w.sent ≡ p.sent ++ p.buffer)
              × (w.messages ≡ [])
              × (w.sent_messages ≡ p.sent_messages ++ p.messages)))
unfolding work set_mute
set_mute-work true s elems p h e =
    let zeros = ap (λ n. p.sent ++ replicate n 0) (sym e) in ground (arith, h, zeros)
set_mute-work false s elems p h e =
    ground (arith, h, forward_messages_lem p.messages p.sent_messages)
