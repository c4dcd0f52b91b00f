-- ===== src/Serialize/Deserializer/Packets.antt =====
-- What the Deserializer makes of a packet that `packBuffer` wrote.
use mathlib.Core.List.{append_assoc}
use pothos_blocks.Shared.{
  ℕ, ◌+◌, ◌-◌, ◌*◌, ◌/◌, ◌%◌, ◌^◌, ◌≤◌, ◌<◌, ◌≡◌, ◌⊎◌, inl, inr, refl, sym, ap, ◌∙◌, Bool, true,
  false, Option, none, some, List, ◌++◌, length, take, drop, arith, length-append,
  take-append_of_length, drop-append_of_length, if◌then◌else◌, leb, ◌==◌, returns, Option-cases,
}
use pothos_blocks.ByteOrder.{ByteOrder}
use pothos_blocks.Serialize.Format.{
  pad_up32, mvrl, vend, vita_sid, vita_ext, vita_tsf, max_pkt_bytes,
}
use pothos_blocks.Serialize.Serializer.{hdr_words32, pkt_bytes, pkt_words32, pack_head, pack_buffer}
use pothos_blocks.Serialize.Serializer.Words.{vita_flags}
use pothos_blocks.Serialize.Serializer.Layout.{
  load_at, load_at-behind, load_at-tsf, pack_head-four_words, length-pack_head, head_words,
}
use pothos_blocks.Serialize.Deserializer.{
  Chunk, memory, has_mvrl, inspect_packet, unpack_checks, unpack_fields, unpack_buffer, bit,
}

-- The number of words of a packet, from its number of bytes.
words-bytes : (tsf : Option ℕ) (len : ℕ) → pad_up32 (pkt_bytes tsf len) / 4 ≡ pkt_words32 tsf len
unfolding pad_up32 pkt_words32
words-bytes none len = omega arith
words-bytes (some t) len = omega arith

words-pos : (tsf : Option ℕ) (len : ℕ) → 4 < pkt_words32 tsf len
unfolding pkt_words32
words-pos none len = omega arith
words-pos (some t) len = omega arith

words-small :
    (tsf : Option ℕ) (len : ℕ) → pkt_bytes tsf len ≤ max_pkt_bytes → pkt_words32 tsf len < 2 ^ 16
unfolding pkt_words32 pad_up32
words-small none len h = omega arith
words-small (some t) len h = omega arith

flags-low : (tsf : Option ℕ) (e : Bool) (n : ℕ) → n < 2 ^ 16 → (vita_flags tsf e + n) % 2 ^ 16 ≡ n
flags-low none false n h = omega arith
flags-low none true n h = omega arith
flags-low (some t) false n h = omega arith
flags-low (some t) true n h = omega arith

abbrev pub is_some : Option ℕ → Bool
is_some none = false
is_some (some t) = true

-- the time stamp, where there is one
abbrev pub stamp_of : Option ℕ → ℕ
stamp_of none = 0
stamp_of (some t) = t

header_of : (tsf : Option ℕ) → (if is_some tsf then 6 else 4) ≡ hdr_words32 tsf
header_of none = refl
header_of (some t) = refl

-- the bits of the second word that `unpackBuffer` looks at
record Bits (tsf : Option ℕ) (e : Bool) (w : ℕ) : Type 0 where
  seq4 : w / 2 ^ 16 % 2 ^ 4 ≡ 0
  tsf_bit : bit w vita_tsf ≡ is_some tsf
  sid_bit : bit w vita_sid ≡ true
  ext_bit : bit w vita_ext ≡ e
  blank30 : bit w (2 ^ 30) ≡ false
  blank27 : bit w (2 ^ 27) ≡ false
  blank26 : bit w (2 ^ 26) ≡ false
  blank23 : bit w (2 ^ 23) ≡ false
  blank22 : bit w (2 ^ 22) ≡ false

flags-Bits : (tsf : Option ℕ) (e : Bool) (n : ℕ) → n < 2 ^ 16 → Bits tsf e (vita_flags tsf e + n)
flags-Bits none false n h = ground arith
flags-Bits none true n h = ground arith
flags-Bits (some t) false n h = ground arith
flags-Bits (some t) true n h = ground arith

mvrl-magic : (bo : ByteOrder) (rest : List ℕ) → has_mvrl (bo.store32 mvrl ++ rest) ≡ true
unfolding has_mvrl
mvrl-magic bo rest = rw (bo.store32_big_endian mvrl (omega arith))

module _ (bo : ByteOrder) (seq sid : ℕ) (tsf : Option ℕ) (is_ext : Bool) (payload pad : List ℕ)
    (padded : length pad ≡ pad_up32 (length payload) - length payload)
    (fits : pkt_bytes tsf (length payload) ≤ max_pkt_bytes) where
  abbrev head : List ℕ
  head = pack_head bo seq sid tsf is_ext (length payload)

  abbrev packet_bytes : ℕ
  packet_bytes = pkt_bytes tsf (length payload)

  abbrev packet_words : ℕ
  packet_words = pkt_words32 tsf (length payload)

  -- the memory with the payload behind the header
  at_payload :
      (rest : List ℕ)
      → pack_buffer bo seq sid tsf is_ext payload pad ++ rest
        ≡ head ++ (payload ++ (pad ++ (bo.store32 vend ++ rest)))
  unfolding pack_buffer
  at_payload rest = simp append_assoc

  -- the memory with the last word behind all others
  at_trailer :
      (rest : List ℕ)
      → pack_buffer bo seq sid tsf is_ext payload pad ++ rest
        ≡ (head ++ (payload ++ pad)) ++ (bo.store32 vend ++ rest)
  unfolding pack_buffer
  at_trailer rest = simp append_assoc

  before_trailer : length (head ++ (payload ++ pad)) ≡ (packet_words - 1) * 4
  unfolding pkt_words32 pad_up32
  before_trailer = omega (
    arith,
    length-append head (payload ++ pad),
    length-append payload pad,
    length-pack_head bo seq sid tsf is_ext (length payload),
    padded,
  )

  -- What the Deserializer reads in a memory that begins with the packet.
  record Reads (mem : List ℕ) : Type 0 where
    magic : has_mvrl mem ≡ true
    size : load_at bo mem 1 ≡ packet_bytes
    flags : load_at bo mem 2 ≡ vita_flags tsf is_ext + (packet_words - 3)
    stream : load_at bo mem 3 ≡ sid % 2 ^ 32
    trailer : load_at bo mem (packet_words - 1) ≡ vend
    data_of : take (length payload) (drop (hdr_words32 tsf * 4) mem) ≡ payload

  packet-Reads : (rest : List ℕ) → Reads (pack_buffer bo seq sid tsf is_ext payload pad ++ rest)
  packet-Reads rest =
      let tail = payload ++ (pad ++ (bo.store32 vend ++ rest)) in
      let hw = head_words bo seq sid tsf is_ext (length payload) tail in
      let hl = length-pack_head bo seq sid tsf is_ext (length payload) in
      let small = words-small tsf (length payload) fits in
      record {
        magic = rw (at_payload rest) (
            rw (pack_head-four_words bo seq sid tsf is_ext (length payload) tail)
              (mvrl-magic bo _));
        size = ap (λ m. load_at bo m 1) (at_payload rest) ∙ hw.1 ∙ omega arith;
        flags = ap (λ m. load_at bo m 2) (at_payload rest) ∙ hw.2 ∙ omega (arith, small);
        stream = ap (λ m. load_at bo m 3) (at_payload rest) ∙ hw.3;
        trailer =
            ap (λ m. load_at bo m (packet_words - 1)) (at_trailer rest)
            ∙ load_at-behind bo (packet_words - 1) vend _ rest before_trailer (omega arith);
        data_of =
            ap (λ m. take (length payload) (drop (hdr_words32 tsf * 4) m)) (at_payload rest)
            ∙ ap (take (length payload)) (drop-append_of_length (hdr_words32 tsf * 4) head tail hl)
            ∙ take-append_of_length (length payload) payload _ refl;
      }

  module _ (c : Chunk) (rest : List ℕ)
      (starts : memory c ≡ pack_buffer bo seq sid tsf is_ext payload pad ++ rest) where
    reads : Reads (memory c)
    reads = rw starts (packet-Reads rest)

    -- Let a buffer's memory begin with a packet of `packBuffer` that is padded to whole words and no
    -- larger than the limit. Where all its bytes are in the buffer, `inspectPacket` finds it to be
    -- valid and complete, with its size.
    pub inspect-pack :
        (f : Bool) (n : ℕ)
        → packet_bytes ≤ length c.bytes
        → inspect_packet bo c f n
          ≡ record { valid = true; is_fragment = false; pkt_bytes = packet_bytes }
    unfolding inspect_packet
    inspect-pack f n there =
        let index : (pad_up32 packet_bytes / 4 + 2 ^ 64 - 1) % 2 ^ 64 ≡ packet_words - 1 = omega (
          arith,
          words-bytes tsf (length payload),
          words-pos tsf (length payload),
          words-small tsf (length payload) fits,
        ) in
        let size : load_at bo (memory c) 1 % 2 ^ 20 ≡ packet_bytes = omega (arith, reads.size) in
        ground (arith, reads.magic, size, index, reads.trailer)

    flag-Bits : Bits tsf is_ext (load_at bo (memory c) 2)
    flag-Bits =
        let small = words-small tsf (length payload) fits in
        rw reads.flags (flags-Bits tsf is_ext (packet_words - 3) (omega (arith, small)))

    checks-pack : packet_words * 4 ≤ length c.bytes → unpack_checks bo c ≡ true
    unfolding unpack_checks
    checks-pack there =
        let mem = memory c in
        let small = words-small tsf (length payload) fits in
        let words : pad_up32 (load_at bo mem 1 % 2 ^ 20) / 4 ≡ packet_words =
          ap (λ n. pad_up32 n / 4) (omega (arith, reads.size)) ∙ words-bytes tsf (length payload) in
        let low : load_at bo mem 2 % 2 ^ 16 ≡ packet_words - 3 =
          ap (λ n. n % 2 ^ 16) reads.flags
          ∙ flags-low tsf is_ext (packet_words - 3) (omega (arith, small)) in
        let no_seq : load_at bo mem 1 / 2 ^ 20 ≡ 0 = omega (arith, reads.size) in
        let words_ok : leb (packet_words * 4) (length c.bytes) ≡ true = ground (arith, there) in
        let low_ok : (packet_words - 3 == (packet_words + 2 ^ 64 - 3) % 2 ^ 64) ≡ true =
          ground (arith, small, words-pos tsf (length payload)) in
        rw
          (
            words, low, no_seq, flag-Bits.seq4, flag-Bits.sid_bit, flag-Bits.blank30,
            flag-Bits.blank27, flag-Bits.blank26, flag-Bits.blank23, flag-Bits.blank22, words_ok,
            low_ok,
          )
          refl

    stamp-pack :
        (t : ℕ)
        → tsf ≡ some t
        → t < 2 ^ 64
        → load_at bo (memory c) 4 * 2 ^ 32 + load_at bo (memory c) 5 ≡ t
    stamp-pack t e h =
        let tail = payload ++ (pad ++ (bo.store32 vend ++ rest)) in
        rw
          (
            starts,
            at_payload rest,
            pack_head-four_words bo seq sid tsf is_ext (length payload) tail,
            e,
          )
          (load_at-tsf bo _ _ _ _ t tail h)

    stamp_back :
        stamp_of tsf < 2 ^ 64
        → (tsf ≡ none) ⊎ ((t : ℕ) × (tsf ≡ some t))
        → (if (unpack_fields bo c).has_tsf then some (unpack_fields bo c).tsf else none) ≡ tsf
    unfolding unpack_fields
    stamp_back small (inl e) =
        let bit_is : bit (load_at bo (memory c) 2) vita_tsf ≡ false =
          flag-Bits.tsf_bit ∙ ap is_some e in
        rw bit_is (sym e)
    stamp_back small (inr (t, e)) =
        let bit_is : bit (load_at bo (memory c) 2) vita_tsf ≡ true =
          flag-Bits.tsf_bit ∙ ap is_some e in
        let t_small : t < 2 ^ 64 = rw (sym (ap stamp_of e)) small in
        rw bit_is (ap some (stamp-pack t e t_small) ∙ sym e)

    payload-pack : (unpack_fields bo c).payload ≡ payload
    unfolding unpack_fields
    payload-pack =
        let header : (if bit (load_at bo (memory c) 2) vita_tsf then 6 else 4) ≡ hdr_words32 tsf =
          ap (λ b. if b then 6 else 4) flag-Bits.tsf_bit ∙ header_of tsf in
        let size : load_at bo (memory c) 1 % 2 ^ 20 ≡ packet_bytes = omega (arith, reads.size) in
        let rest_of : (packet_bytes + 2 ^ 64 - hdr_words32 tsf * 4 - 4) % 2 ^ 64 ≡ length payload =
          omega arith in
        rw (header, size, rest_of) reads.data_of

    -- Let a buffer's memory begin with a packet of `packBuffer` that is padded to whole words and no
    -- larger than the limit, with a stream id of 32 bits and a time stamp, if any, of 64 bits. Where
    -- all its words are in the buffer, `unpackBuffer` accepts it and gives the stream id, the time
    -- stamp, the extension flag and the payload that were packed, but the sequence number 0.
    pub unpack-pack :
        packet_words * 4 ≤ length c.bytes
        → sid < 2 ^ 32
        → stamp_of tsf < 2 ^ 64
        → let u = unpack_fields bo c in
          (unpack_buffer bo c ≡ returns u)
          × (u.seq ≡ 0)
          × (u.sid ≡ sid)
          × (u.has_tsf ≡ is_some tsf)
          × ((if u.has_tsf then some u.tsf else none) ≡ tsf)
          × (u.is_ext ≡ is_ext)
          × (u.payload ≡ payload)
    unfolding unpack_buffer
    unpack-pack there sid_small stamp_small = (
      rw (checks-pack there),
      unfold unpack_fields in omega (arith, reads.size),
      unfold unpack_fields in reads.stream ∙ omega arith,
      unfold unpack_fields in flag-Bits.tsf_bit,
      stamp_back stamp_small (Option-cases tsf),
      unfold unpack_fields in flag-Bits.ext_bit,
      payload-pack,
    )
