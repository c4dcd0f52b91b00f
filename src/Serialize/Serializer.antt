-- ===== src/Serialize/Serializer.antt =====
-- serialize/Serializer.cpp. A message or label is the bytes of its serialized object.
pub mod Words
pub mod Layout
use Prim.Native.Nat.{bit_or}
use pothos_blocks.Shared.{
  ℕ, zero, suc, ◌+◌, ◌-◌, ◌*◌, ◌/◌, ◌%◌, ◌^◌, Bool, true, false, List, [], ◌∷◌, ◌++◌, map, Option,
  none, some, if◌then◌else◌, length, ◌==◌, set, get_or,
}
use pothos_blocks.ByteOrder.{ByteOrder}
use pothos_blocks.Serialize.Format.{pad_up32, mvrl, vend, vita_sid, vita_ext, vita_tsf}

-- `hdr_words32`; the time stamp is there where `has_tsf` is.
abbrev pub hdr_words32 : Option ℕ → ℕ
hdr_words32 none = 4
hdr_words32 (some tsf) = 6

abbrev pub pkt_bytes : Option ℕ → ℕ → ℕ
pkt_bytes tsf len = hdr_words32 tsf * 4 + len + 4

unfoldable pub pkt_words32 : Option ℕ → ℕ → ℕ
unfolding pad_up32
pkt_words32 tsf len = hdr_words32 tsf + pad_up32 len / 4 + 1

-- `p[1]`: `((seq << 20) & 0xfff) | (pkt_bytes & 0xfffff)`
unfoldable pub vrl_word : ℕ → ℕ → ℕ
vrl_word seq bytes = bit_or (seq * 2 ^ 20 % 2 ^ 64 % 2 ^ 12) (bytes % 2 ^ 20)

-- `p[2]`, with `(seq << 16) & 0xf`
unfoldable pub vita_word : ℕ → Option ℕ → Bool → ℕ → ℕ
vita_word seq tsf is_ext vita_words32 =
    bit_or
      (bit_or
        (bit_or (bit_or vita_sid (if is_ext then vita_ext else 0))
          (elim tsf [ none ↦ 0 | some t ↦ vita_tsf ]))
        (seq * 2 ^ 16 % 2 ^ 64 % 2 ^ 4))
      (vita_words32 % 2 ^ 16)

-- one input port: its messages, its labels with their index and its buffer
pub record InPort : Type 0 where
  pub messages : List (List ℕ)
  pub labels : List (ℕ × List ℕ)
  pub buffer : List ℕ
  pub total_elements : ℕ

module _ (bo : ByteOrder) where
  unfoldable pub tsf_words : Option ℕ → List ℕ
  tsf_words none = []
  tsf_words (some t) = bo.store32 (t / 2 ^ 32 % 2 ^ 32) ++ bo.store32 (t % 2 ^ 32)

  -- the header that `packBuffer` writes in front of a payload of `len` bytes
  unfoldable pub pack_head : ℕ → ℕ → Option ℕ → Bool → ℕ → List ℕ
  pack_head seq sid tsf is_ext len =
      bo.store32 mvrl
      ++ (bo.store32 (vrl_word seq (pkt_bytes tsf len))
          ++ (bo.store32 (vita_word seq tsf is_ext (pkt_words32 tsf len - 3))
              ++ (bo.store32 (sid % 2 ^ 32) ++ tsf_words tsf)))

  -- `packBuffer`: the memory of the packet. `pad` is what the buffer holds between the payload and
  -- the next word.
  unfoldable pub pack_buffer : ℕ → ℕ → Option ℕ → Bool → List ℕ → List ℕ → List ℕ
  unfolding pack_head
  pack_buffer seq sid tsf is_ext payload pad =
      pack_head seq sid tsf is_ext (length payload) ++ (payload ++ (pad ++ bo.store32 vend))

  module _ (pad : List ℕ → List ℕ) where
    -- The packets of a list of messages, from a sequence number on: posted buffers, and the next
    -- number. `pad p` is the memory behind the payload `p`.
    unfoldable pub pack_messages : ℕ → ℕ → List (List ℕ) → List (List ℕ) × ℕ
    unfolding pack_buffer
    pack_messages sid seq [] = ([], seq)
    pack_messages sid seq (m ∷ ms) =
        let (rest, seq') = pack_messages sid (seq + 1) ms in
        (pack_buffer seq sid none true m (pad m) ∷ rest, seq')

    -- The packets of the labels; a label's time stamp is its absolute index.
    unfoldable pub pack_labels : ℕ → ℕ → ℕ → List (ℕ × List ℕ) → List (List ℕ) × ℕ
    unfolding pack_buffer
    pack_labels sid total seq [] = ([], seq)
    pack_labels sid total seq ((index, l) ∷ ls) =
        let (rest, seq') = pack_labels sid total (seq + 1) ls in
        (pack_buffer seq sid (some ((index + total) % 2 ^ 64)) true l (pad l) ∷ rest, seq')

    -- The three buffers that are posted for a stream buffer: the header, the payload itself, and the
    -- last word of the packed memory.
    unfoldable pub pack_stream : ℕ → ℕ → ℕ → List ℕ → List (List ℕ) × ℕ
    unfolding pack_head
    pack_stream sid total seq payload = if length payload == 0 then ([], seq) else (
      pack_head seq sid (some total) false (length payload) ∷ (payload ∷ (bo.store32 vend ∷ [])),
      seq + 1,
    )

    -- what is posted for one input port
    unfoldable pub work_port : ℕ → ℕ → InPort → List (List ℕ) × ℕ
    unfolding pack_messages pack_labels pack_stream
    work_port sid seq p =
        let (ms, seq1) = pack_messages sid seq p.messages in
        let (ls, seq2) = pack_labels sid p.total_elements seq1 p.labels in
        let (bs, seq3) = pack_stream sid p.total_elements seq2 p.buffer in (ms ++ (ls ++ bs), seq3)

    -- `work`: the loop over the input ports from port `i` on, with `_seqs`.
    unfoldable pub work : ℕ → List InPort → List ℕ → List (List ℕ) × List ℕ
    unfolding work_port
    work i [] seqs = ([], seqs)
    work i (p ∷ ps) seqs =
        let (out, seq) = work_port i (get_or seqs i 0) p in
        let (rest, seqs') = work (i + 1) ps (set seqs i seq) in (out ++ rest, seqs')
