-- ===== src/Serialize/Deserializer/Fuel.antt =====
-- The rounds of the loop of the Deserializer's `work`.
use pothos_blocks.Shared.{
  ℕ, zero, suc, ◌+◌, ◌-◌, ◌≤◌, ◌<◌, ◌≡◌, ◌≢◌, ◌⊎◌, inl, inr, refl, sym, ap, ◌∙◌, Bool, true, false,
  List, [], ◌∷◌, ◌++◌, length, length-drop, length-take, arith, ltb, Outcome, returns, throws,
  Bool-cases,
}
use pothos_blocks.ByteOrder.{ByteOrder}
use pothos_blocks.Serialize.Format.{pad_up32, min_pkt_bytes}
use pothos_blocks.Serialize.Deserializer.{
  Chunk, Deserializer, Error, out_of_fuel, get_total_buffer_size, clear_bytes_from_buffers,
  get_appended_buffers, unpack_checks, unpack_buffer, post_unpacked, handle_packet, inspect_head,
  round, loop, work,
}
use pothos_blocks.Serialize.Deserializer.Queue.{
  content, total-length-content, clear-drop, appended-take,
}

-- What is left when `n` bytes are cleared.
total-clear :
    (cs : List Chunk) (n : ℕ)
    → get_total_buffer_size (clear_bytes_from_buffers cs n) ≡ get_total_buffer_size cs - n
total-clear cs n =
    total-length-content (clear_bytes_from_buffers cs n)
    ∙ ap length (clear-drop cs n)
    ∙ length-drop n (content cs)
    ∙ ap (λ k. k - n) (sym (total-length-content cs))

abbrev ran_out : Outcome Error (Unit {0}) → Bool
ran_out (throws out_of_fuel) = true
ran_out _ = false

not_few : (a b : ℕ) → ltb a b ≡ false → b ≤ a
not_few a b h = ground arith

less_left : (b : Bool) (m n fuel : ℕ) → b ≡ true → (b ≡ false) ⊎ (m < n) → n < suc fuel → m < fuel
less_left b m n fuel again less h = ground (arith, again, less, h)

total-snoc :
    (cs : List Chunk) (c : Chunk)
    → get_total_buffer_size (cs ++ (c ∷ [])) ≡ get_total_buffer_size cs + length c.bytes
unfolding get_total_buffer_size
total-snoc [] c = omega arith
total-snoc (b ∷ cs) c = omega (arith, total-snoc cs c)

module _ (bo : ByteOrder) where
  unpack_checks-empty : (c : Chunk) → length c.bytes ≡ 0 → unpack_checks bo c ≡ false
  unfolding unpack_checks pad_up32
  unpack_checks-empty c e = ground (arith, e)

  -- Where the packet is handled, there are bytes in it, and the buffers are not touched.
  handle_packet-returns :
      (d : Deserializer) (c : Chunk)
      → (handle_packet bo d c).0 ≡ returns tt
      → (0 < length c.bytes) × ((handle_packet bo d c).2.buffers ≡ d.buffers)
  unfolding handle_packet unpack_buffer post_unpacked
  handle_packet-returns d c h = ground (arith, h, unpack_checks-empty c)

  handle_packet-ran_out : (d : Deserializer) (c : Chunk) → ran_out (handle_packet bo d c).0 ≡ false
  unfolding handle_packet unpack_buffer post_unpacked
  handle_packet-ran_out d c = ground arith

  module _ (fresh : List ℕ) where
    length-handled :
        (d : Deserializer) (n : ℕ) → length (get_appended_buffers fresh d.buffers n).bytes ≤ n
    length-handled d n =
        (let e = ap length (appended-take fresh d.buffers n) ∙ length-take n (content d.buffers) in
          omega (arith, e))

    pad_up32-pos : (n : ℕ) → 0 < pad_up32 n → 0 < n
    unfolding pad_up32
    pad_up32-pos n h = omega (arith, h)

    -- A round after which the loop goes on has taken bytes off the buffers.
    round-shrinks :
        (d : Deserializer)
        → min_pkt_bytes ≤ get_total_buffer_size d.buffers
        → let (again, run) = round bo fresh d in
          let (o, posts, d') = run in
          (again ≡ false) ⊎ (get_total_buffer_size d'.buffers < get_total_buffer_size d.buffers)
    unfolding round
    round-shrinks d enough =
        let n = (inspect_head bo fresh d.buffers).pkt_bytes in
        let c = get_appended_buffers fresh d.buffers (pad_up32 n) in
        let clear_one = total-clear d.buffers 1 in
        let clear_all = total-clear d.buffers n in
        ground (
          arith,
          enough,
          clear_one,
          clear_all,
          handle_packet-returns d c,
          length-handled d (pad_up32 n),
          pad_up32-pos n,
        )

    round-ran_out :
        (d : Deserializer)
        → let (again, run) = round bo fresh d in let (o, posts, d') = run in ran_out o ≡ false
    unfolding round
    round-ran_out d =
        let n = (inspect_head bo fresh d.buffers).pkt_bytes in
        let c = get_appended_buffers fresh d.buffers (pad_up32 n) in
        ground (arith, handle_packet-ran_out d c)

    loop-ran_out :
        (fuel : ℕ) (d : Deserializer)
        → get_total_buffer_size d.buffers < fuel
        → ran_out (loop bo fresh fuel d).0 ≡ false
    unfolding loop
    loop-ran_out zero d h = absurd (omega arith)
    loop-ran_out (suc fuel) d h =
        elim (Bool-cases (ltb (get_total_buffer_size d.buffers) min_pkt_bytes)) [
          | inl few ↦ rw (few, loop) refl
          | inr many ↦ elim (Bool-cases (round bo fresh d).0) [
            | inr stop ↦ rw (many, stop, loop) (round-ran_out d)
            | inl again ↦
                let enough : min_pkt_bytes ≤ get_total_buffer_size d.buffers = not_few _ _ many in
                let next = (round bo fresh d).1.2 in
                let less : get_total_buffer_size next.buffers < fuel =
                  less_left _ _ _ fuel again (round-shrinks d enough) h in
                rw (many, again, loop) (loop-ran_out fuel next less)
          ]
        ]

    -- Each round that goes on takes at least one byte off the buffers. So `work` ends, normally or
    -- with an exception of `handlePacket`, within one round more than there are bytes in the
    -- buffers and in the new input.
    pub work-fuel :
        (fuel : ℕ) (d : Deserializer) (c : Chunk)
        → get_total_buffer_size d.buffers + length c.bytes < fuel
        → (work bo fresh fuel d c).0 ≢ throws out_of_fuel
    unfolding work
    work-fuel fuel d c h e =
        let total : get_total_buffer_size (d.buffers ++ (c ∷ []))
            ≡ get_total_buffer_size d.buffers + length c.bytes =
          total-snoc d.buffers c in
        let ends =
          loop-ran_out fuel (record d { buffers = d.buffers ++ (c ∷ []) })
            (omega (arith, total, h)) in
        ground (arith, e, ends)
