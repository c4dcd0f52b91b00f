-- ===== src/Packet/StreamToPacket/Modes.antt =====
-- The modes of StreamToPacket follow from its two frame ids.
use Prim.Native.String.{String}
use pothos_blocks.Shared.{ℕ, ◌≡◌, refl, List, [], ◌∷◌, false, ◌&&◌, not, arith}
use pothos_blocks.Pothos.{Input, Framework}
use pothos_blocks.Packet.StreamToPacket.{
  StreamToPacket, is_empty, make, set_mtu, set_frame_start_id, set_frame_end_id, activate, Start,
  missing, at_front, later, find_start, enter_frame, stream_work, work,
}

-- The mode flags are what the ids say.
pub record IsValid (s : StreamToPacket) : Type 0 where
  pub start_frame :
      s.start_frame_mode ≡ (not (is_empty s.frame_start_id) && is_empty s.frame_end_id)
  pub full_frame :
      s.full_frame_mode ≡ (not (is_empty s.frame_start_id) && not (is_empty s.frame_end_id))

-- The calls that a topology makes on the block.
pub data Op : Type 0 where
  sets_mtu : ℕ → Op
  sets_start sets_end : String → Op
  activates : Op
  works : Input → Op

module _ (fw : Framework) where
  unfoldable pub apply : StreamToPacket → Op → StreamToPacket
  apply s (sets_mtu n) = set_mtu n s
  apply s (sets_start id) = set_frame_start_id id s
  apply s (sets_end id) = set_frame_end_id id s
  apply s activates = activate s
  apply s (works inp) = (work fw s inp).0

  enter_frame-IsValid :
      (s : StreamToPacket) (inp : Input) (st : Start)
      → IsValid s
      → IsValid (enter_frame fw s inp st).0
  unfolding enter_frame
  enter_frame-IsValid s inp missing v = v
  enter_frame-IsValid s inp at_front v = record {
    start_frame = v.start_frame;
    full_frame = v.full_frame;
  }
  enter_frame-IsValid s inp (later n) v = record {
    start_frame = v.start_frame;
    full_frame = v.full_frame;
  }

  apply-IsValid : (s : StreamToPacket) (op : Op) → IsValid s → IsValid (apply s op)
  unfolding apply set_mtu set_frame_start_id set_frame_end_id activate work stream_work
  apply-IsValid s (sets_mtu n) v = record { start_frame = v.start_frame; full_frame = v.full_frame }
  apply-IsValid s (works inp) v =
      ground (
        arith,
        enter_frame-IsValid s inp (find_start s.frame_start_id inp.elements inp.labels) v,
        v,
      )
  apply-IsValid s op v = ground arith

  unfoldable pub run : StreamToPacket → List Op → StreamToPacket
  unfolding apply
  run s [] = s
  run s (op ∷ ops) = run (apply s op) ops

  run-IsValid : (s : StreamToPacket) (ops : List Op) → IsValid s → IsValid (run s ops)
  unfolding run
  run-IsValid s [] v = v
  run-IsValid s (op ∷ ops) v = run-IsValid (apply s op) ops (apply-IsValid s op v)

  -- After any sequence of calls on a new block, the mode flags agree with the two ids; so the block
  -- is never in both modes.
  pub run-make-modes :
      (ops : List Op)
      → IsValid (run make ops)
        × (((run make ops).start_frame_mode && (run make ops).full_frame_mode) ≡ false)
  unfolding make
  run-make-modes ops =
      let v = run-IsValid make ops (record { start_frame = refl; full_frame = refl }) in
      (v, ground (arith, v))
