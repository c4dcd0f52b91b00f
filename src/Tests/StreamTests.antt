-- ===== src/Tests/StreamTests.antt =====
-- stream/, at concrete inputs.
use text.Mathlib.Text.{◌==◌ as str_eq}
use pothos_blocks.Shared.{
  ℕ, ◌+◌, ◌*◌, ◌≡◌, ◌⊎◌, refl, arith, List, [], ◌∷◌, ◌++◌, map, take, drop, true, false, returns,
}
use pothos_blocks.Shared.Int.{pos}
use pothos_blocks.Stream.Port.{feed, drain, concat, Whole, whole_nil, whole_cons}
use pothos_blocks.Stream.FirstN.{FirstN, skip_work, first_of, skip_of, work-first, skip_work-rest}
use pothos_blocks.Stream.FirstN
use pothos_blocks.Stream.Delay.{set_delay, work-drain_delay, work-drain_advance}
use pothos_blocks.Stream.Delay
use pothos_blocks.Stream.Interleave.{
  Interleaver, set_chunk_size, min_elements, deinterleave, interleaver_work,
}
use pothos_blocks.Stream.Interleave.Work.{chunks_in, interleaver_work-deinterleave}
use pothos_blocks.Stream.Repeat.{repeat_loop, repeat_loop-at}
use pothos_blocks.Stream.Gateway.{Gateway, Ports, set_mode, set_mode-work}
use pothos_blocks.Stream.Gateway
use pothos_blocks.Stream.Mute.{Mute, set_mute, set_mute-work}
use pothos_blocks.Stream.Mute

abbrev parts : List (List ℕ)
parts = (1 ∷ (2 ∷ [])) ∷ ((3 ∷ (4 ∷ (5 ∷ (6 ∷ [])))) ∷ [])

parts-Whole : Whole 2 parts
parts-Whole = whole_cons 1 (omega arith) (whole_cons 2 (omega arith) whole_nil)

abbrev two_wanted : FirstN
two_wanted = record { elems = 2; done = false }

work-first_example :
    feed (FirstN.work 2) two_wanted [] parts ≡ first_of (two_wanted.elems * 2) ([] ++ concat parts)
work-first_example = work-first 2 two_wanted [] parts (omega arith) (omega arith) refl (omega arith)

work-drain_delay_example :
    drain (Delay.work 2) (set_delay (pos 2) Delay.make) [] parts ≡ drop (2 * 2) (concat parts)
work-drain_delay_example = work-drain_delay 2 2 parts (omega arith) parts-Whole

abbrev inputs : List (List ℕ)
inputs = (1 ∷ (2 ∷ (3 ∷ (4 ∷ [])))) ∷ ((5 ∷ (6 ∷ (7 ∷ (8 ∷ [])))) ∷ [])

abbrev two_ports : Interleaver
two_ports = record { dtype_size = 2; num_ports = 2; chunk_size = 1; chunk_size_bytes = 2 }

abbrev unset_ports : Interleaver
unset_ports = record { dtype_size = 2; num_ports = 2; chunk_size = 0; chunk_size_bytes = 0 }

two_ports_set : set_chunk_size 1 unset_ports ≡ returns two_ports
unfolding set_chunk_size
two_ports_set = refl

-- the output has room for three elements, so that one of the two chunks is copied from each input
one_chunk : chunks_in two_ports 3 inputs ≡ 1
unfolding min_elements
one_chunk = refl

interleaver_work-deinterleave_example :
    (out : List ℕ) × ((interleaver_work two_ports 2 3 inputs).written ≡ out ∷ [])
    × (deinterleave (chunks_in two_ports 3 inputs) 2 2 out
        ≡ map (take (chunks_in two_ports 3 inputs * 2)) inputs)
interleaver_work-deinterleave_example =
    interleaver_work-deinterleave two_ports unset_ports 1 2 3 inputs two_ports_set (omega arith)
      (omega (arith, one_chunk))

-- The call that copies one element of each input consumes both.
lost : (interleaver_work two_ports 2 3 inputs).consumed ≡ 2
unfolding interleaver_work
lost = refl

abbrev six : List ℕ
six = 1 ∷ (2 ∷ (3 ∷ (4 ∷ (5 ∷ (6 ∷ [])))))

repeat_loop-at_example :
    take 2 (drop ((1 * 3 + 2) * 2) (repeat_loop 2 3 2 six)) ≡ take 2 (drop (1 * 2) six)
repeat_loop-at_example = repeat_loop-at 2 3 2 1 2 six (omega arith) (omega arith) (omega arith)

abbrev gateway : Gateway
gateway = record { mode = "DROP"; forward_mode = false; backup_mode = false; drop_mode = true }

abbrev waiting : Ports
waiting = record {
  messages = 1 ∷ [];
  labels = 2 ∷ [];
  buffer = six;
  sent_messages = [];
  sent = 0 ∷ [];
}

abbrev forwarded : Ports
forwarded = Gateway.work (set_mode "FORWARD" gateway).1 waiting

set_mode-work_example :
    (forwarded.sent_messages ++ forwarded.messages ≡ 1 ∷ [])
    × (forwarded.sent ++ forwarded.buffer ≡ 0 ∷ six)
    × (forwarded.labels ≡ 2 ∷ [])
    × (((forwarded.messages ≡ []) × (forwarded.buffer ≡ [])) ⊎ (str_eq "FORWARD" "FORWARD" ≡ false))
set_mode-work_example = set_mode-work "FORWARD" gateway waiting refl

abbrev speaking : Mute
speaking = record { dtype_size = 2; mute = false }

abbrev muted : Ports
muted = Mute.work (set_mute true speaking).0 3 waiting
