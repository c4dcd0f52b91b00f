-- ===== src/Serialize/Serializer/Words.antt =====
-- The two words of a packet header that hold several fields.
use pothos_blocks.Shared.{
  ℕ, ◌+◌, ◌-◌, ◌*◌, ◌%◌, ◌^◌, ◌≡◌, Bool, true, false, Option, none, some, List, arith, length,
}
use pothos_blocks.Shared.Bits.{zero-bit_or, bit_or-disjoint}
use pothos_blocks.ByteOrder.{ByteOrder}
use pothos_blocks.Serialize.Format.{vita_sid, vita_ext, vita_tsf}
use pothos_blocks.Serialize.Serializer.{
  vrl_word, vita_word, pkt_bytes, pkt_words32, pack_head, pack_buffer,
}

-- the mask of `(seq << 20) & 0xfff` keeps nothing
no_seq12 : (seq : ℕ) → seq * 2 ^ 20 % 2 ^ 64 % 2 ^ 12 ≡ 0
no_seq12 seq = omega arith

no_seq4 : (seq : ℕ) → seq * 2 ^ 16 % 2 ^ 64 % 2 ^ 4 ≡ 0
no_seq4 seq = omega arith

pub vrl_word_lem : (seq bytes : ℕ) → vrl_word seq bytes ≡ bytes % 2 ^ 20
unfolding vrl_word
vrl_word_lem seq bytes = rw no_seq12 (zero-bit_or (bytes % 2 ^ 20))

-- the flags of the second word
abbrev pub vita_flags : Option ℕ → Bool → ℕ
vita_flags none false = vita_sid
vita_flags none true = vita_sid + vita_ext
vita_flags (some t) false = vita_sid + vita_tsf
vita_flags (some t) true = vita_sid + vita_ext + vita_tsf

pub vita_word_lem :
    (seq : ℕ) (tsf : Option ℕ) (is_ext : Bool) (n : ℕ)
    → vita_word seq tsf is_ext n ≡ vita_flags tsf is_ext + n % 2 ^ 16
unfolding vita_word
vita_word_lem seq none false n = rw no_seq4 (bit_or-disjoint 16 (2 ^ 12) (n % 2 ^ 16) (omega arith))
vita_word_lem seq none true n =
    rw no_seq4 (bit_or-disjoint 16 (2 ^ 12 + 2 ^ 13) (n % 2 ^ 16) (omega arith))
vita_word_lem seq (some t) false n =
    rw no_seq4 (bit_or-disjoint 16 (2 ^ 12 + 2 ^ 4) (n % 2 ^ 16) (omega arith))
vita_word_lem seq (some t) true n =
    rw no_seq4 (bit_or-disjoint 16 (2 ^ 12 + 2 ^ 13 + 2 ^ 4) (n % 2 ^ 16) (omega arith))

-- The sequence number is never sent: whatever it is, the packet is that of sequence number 0.
pub pack_buffer-seq :
    (bo : ByteOrder) (seq sid : ℕ) (tsf : Option ℕ) (is_ext : Bool) (payload pad : List ℕ)
    → pack_buffer bo seq sid tsf is_ext payload pad ≡ pack_buffer bo 0 sid tsf is_ext payload pad
unfolding pack_buffer pack_head
pack_buffer-seq bo seq sid tsf is_ext payload pad =
    let n = length payload in
    let words = pkt_words32 tsf n - 3 in
    rw (
      vrl_word_lem seq (pkt_bytes tsf n),
      vrl_word_lem 0 (pkt_bytes tsf n),
      vita_word_lem seq tsf is_ext words,
      vita_word_lem 0 tsf is_ext words,
    )
