-- ===== src/Tests/SerializeTests.antt =====
-- serialize/, at concrete inputs.
use pothos_blocks.Shared.{
  ◌+◌, ℕ, ◌*◌, ◌-◌, ◌≤◌, ◌≡◌, refl, arith, List, [], ◌∷◌, ◌++◌, length, take, drop, true, none,
  some, returns, throws, ◌≢◌, if◌then◌else◌,
}
use pothos_blocks.Serialize.Format.{pad_up32}
use pothos_blocks.Serialize.Serializer.{
  pkt_bytes, pkt_words32, pack_buffer, pack_head, tsf_words, vrl_word, vita_word,
}
use pothos_blocks.Serialize.Serializer.Words.{pack_buffer-seq}
use pothos_blocks.Serialize.Deserializer.{
  Chunk, Deserializer, out_of_fuel, get_total_buffer_size, inspect_packet, unpack_buffer,
  unpack_fields, clear_bytes_from_buffers, get_appended_buffers,
}
use pothos_blocks.Serialize.Deserializer
use pothos_blocks.Serialize.Deserializer.Fuel.{work-fuel}
use pothos_blocks.Serialize.Deserializer.Queue.{content, buffers_are_a_queue}
use pothos_blocks.Serialize.Deserializer.Packets.{unpack-pack}
use pothos_blocks.Tests.Instances.{big_endian}

abbrev five : List ℕ
five = 1 ∷ (2 ∷ (3 ∷ (4 ∷ (5 ∷ []))))

abbrev padding : List ℕ
padding = 0 ∷ (0 ∷ (0 ∷ []))

five_padded : length padding ≡ pad_up32 (length five) - length five
unfolding pad_up32
five_padded = refl

abbrev packed : List ℕ
packed = pack_buffer big_endian 3 7 (some 100) true five padding

-- the packet's 36 bytes
abbrev chunk : Chunk
chunk = record { bytes = packed; beyond = [] }

packed_all : pkt_words32 (some 100) 5 * 4 ≡ length packed
unfolding pkt_words32 pad_up32 pack_buffer pack_head tsf_words vrl_word vita_word
packed_all = refl

pack_buffer-seq_example :
    pack_buffer big_endian 3 7 (some 100) true five padding
    ≡ pack_buffer big_endian 0 7 (some 100) true five padding
pack_buffer-seq_example = pack_buffer-seq big_endian 3 7 (some 100) true five padding

chunk_starts : packed ++ [] ≡ packed ++ []
chunk_starts = refl

packed_words : pkt_words32 (some 100) 5 ≡ 9
unfolding pkt_words32 pad_up32
packed_words = refl

size_there : pkt_bytes (some 100) 5 ≤ length packed
size_there = omega (arith, packed_all, packed_words)

unpack-pack_example :
    let u = unpack_fields big_endian chunk in
    (unpack_buffer big_endian chunk ≡ returns u)
    × (u.seq ≡ 0)
    × (u.sid ≡ 7)
    × (u.has_tsf ≡ true)
    × ((if u.has_tsf then some u.tsf else none) ≡ some 100)
    × (u.is_ext ≡ true)
    × (u.payload ≡ five)
unpack-pack_example =
    unpack-pack big_endian 3 7 (some 100) true five padding five_padded (omega arith) chunk []
      chunk_starts (omega (arith, packed_all)) (omega arith) (omega arith)

-- two buffers
abbrev held : List Chunk
held =
    record { bytes = five; beyond = [] }
    ∷ (record { bytes = 6 ∷ (7 ∷ (8 ∷ [])); beyond = 9 ∷ [] } ∷ [])

held_total : get_total_buffer_size held ≡ 8
unfolding get_total_buffer_size
held_total = refl

buffers_are_a_queue_example :
    (content (clear_bytes_from_buffers held 6) ≡ drop 6 (content held))
    × (length (content (clear_bytes_from_buffers held 6)) + 6 ≡ length (content held))
    × ((get_appended_buffers [] held 7).bytes ≡ take 7 (content held))
buffers_are_a_queue_example =
    buffers_are_a_queue [] held 6 7 (omega arith) (omega (arith, held_total))

-- A block that holds two buffers and is given a packet.
abbrev holding : Deserializer
holding = record { buffers = held; next_expected_index = 0; outputs = 8 }

work-fuel_example : (Deserializer.work big_endian [] 45 holding chunk).0 ≢ throws out_of_fuel
work-fuel_example =
    work-fuel big_endian [] 45 holding chunk (omega (arith, held_total, packed_all, packed_words))

-- A block that holds the packet, behind two bytes.
abbrev with_packet : Deserializer
with_packet = record {
  buffers = record { bytes = 1 ∷ (2 ∷ []); beyond = [] } ∷ (chunk ∷ []);
  next_expected_index = 0;
  outputs = 8;
}
