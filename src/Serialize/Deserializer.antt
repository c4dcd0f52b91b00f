-- ===== src/Serialize/Deserializer.antt =====
-- serialize/Deserializer.cpp
pub mod Queue
pub mod Packets
pub mod Fuel
pub mod Rounds
use pothos_blocks.Shared.{
  ℕ, zero, suc, ◌+◌, ◌-◌, ◌*◌, ◌/◌, ◌%◌, ◌^◌, min, Bool, true, false, ◌&&◌, ◌||◌, not, List, [],
  ◌∷◌, ◌++◌, Option, none, some, if◌then◌else◌, leb, ltb, ◌==◌, length, take, drop, Outcome,
  returns, throws,
}
use pothos_blocks.ByteOrder.{ByteOrder}
use pothos_blocks.Serialize.Format.{
  pad_up32, vend, vita_sid, vita_ext, vita_tsf, min_pkt_bytes, max_pkt_bytes,
}

-- A buffer: its bytes, and the memory behind them.
pub record Chunk : Type 0 where
  pub bytes : List ℕ
  pub beyond : List ℕ

-- the memory from the buffer's address on
abbrev pub memory : Chunk → List ℕ
memory c = c.bytes ++ c.beyond

-- `getTotalBufferSize`
unfoldable pub get_total_buffer_size : List Chunk → ℕ
get_total_buffer_size [] = 0
get_total_buffer_size (c ∷ cs) = length c.bytes + get_total_buffer_size cs

-- The loop of `clearBytesFromBuffers`.
unfoldable pub clear_loop : List Chunk → ℕ → List Chunk
clear_loop [] n = []
clear_loop (c ∷ cs) n =
    let rest = clear_loop cs (n - length c.bytes) in
    if n == 0
    then c ∷ cs
    else (if ltb n (length c.bytes) then record c { bytes = drop n c.bytes } ∷ cs else rest)

-- The source asserts that there is a buffer and that no more bytes are cleared than are held; what
-- stands here for other arguments has no meaning.
unfoldable pub clear_bytes_from_buffers : List Chunk → ℕ → List Chunk
unfolding get_total_buffer_size clear_loop
clear_bytes_from_buffers cs n =
    if n == 0 then cs else (if n == get_total_buffer_size cs then [] else clear_loop cs n)

-- The loop of `getAppendedBuffers`: the appended bytes.
unfoldable pub append_loop : List Chunk → ℕ → List ℕ
append_loop [] n = []
append_loop (c ∷ cs) n =
    let rest = append_loop cs (n - min (length c.bytes) n) in
    if n == 0 then [] else take (min (length c.bytes) n) c.bytes ++ rest

-- `getAppendedBuffers`: the first buffer cut to size, or a new buffer, with `fresh` behind it.
-- The source asserts that there is a buffer; what stands here for none has no meaning.
unfoldable pub get_appended_buffers : List ℕ → List Chunk → ℕ → Chunk
unfolding append_loop
get_appended_buffers fresh [] n = record { bytes = []; beyond = fresh }
get_appended_buffers fresh (c ∷ cs) n =
    if ltb (length c.bytes) n
    then record { bytes = append_loop (c ∷ cs) n; beyond = fresh }
    else record { bytes = take n c.bytes; beyond = drop n c.bytes ++ c.beyond }

-- What `inspectPacket` returns and writes through its references.
pub record Inspection : Type 0 where
  pub valid : Bool
  pub is_fragment : Bool
  pub pkt_bytes : ℕ

-- `p[0]` to `p[3]` spell mVRL.
unfoldable pub has_mvrl : List ℕ → Bool
has_mvrl (a ∷ (b ∷ (c ∷ (d ∷ rest)))) = a == b'm' && (b == b'V' && (c == b'R' && d == b'L'))
has_mvrl _ = false

-- What `unpackBuffer` extracts.
pub record Unpacked : Type 0 where
  pub seq : ℕ
  pub sid : ℕ
  pub has_tsf : Bool
  pub tsf : ℕ
  pub is_ext : Bool
  pub payload : List ℕ

pub data Error : Type 0 where
  assertion_violation range_error out_of_fuel : Error

-- What the block posts: a stream buffer, a label with its index, or a message, on an output port.
-- Labels and messages are the bytes of their serialized objects.
pub data Post : Type 0 where
  buffer : ℕ → List ℕ → Post
  label : ℕ → ℕ → List ℕ → Post
  message : ℕ → List ℕ → Post

pub record Deserializer : Type 0 where
  pub buffers : List Chunk
  pub next_expected_index : ℕ
  pub outputs : ℕ

-- one bit of a word
abbrev pub bit : ℕ → ℕ → Bool
bit w mask = w / mask % 2 == 1

-- What is posted, what the next state is, and how `work` ended.
abbrev pub Run : Type 0
Run = Outcome Error (Unit {0}) × List Post × Deserializer

module _ (bo : ByteOrder) where
  -- the word at index `i`
  abbrev pub word : List ℕ → ℕ → ℕ
  word mem i = bo.load32 (drop (i * 4) mem)

  unfoldable pub inspect_packet : Chunk → Bool → ℕ → Inspection
  unfolding has_mvrl pad_up32
  inspect_packet c is_fragment pkt_bytes =
      let mem = memory c in
      let bytes = word mem 1 % 2 ^ 20 in
      let fragment = ltb (length c.bytes) bytes in
      if has_mvrl mem
      then record {
        valid =
            not (ltb max_pkt_bytes bytes)
            && (fragment || (word mem ((pad_up32 bytes / 4 + 2 ^ 64 - 1) % 2 ^ 64) == vend));
        is_fragment = fragment;
        pkt_bytes = bytes;
      }
      else record { valid = false; is_fragment = is_fragment; pkt_bytes = pkt_bytes }

  -- the checks of `unpackBuffer`
  unfoldable pub unpack_checks : Chunk → Bool
  unfolding pad_up32
  unpack_checks c =
      let mem = memory c in
      let pkt_words32 = pad_up32 (word mem 1 % 2 ^ 20) / 4 in
      let seq12 = word mem 1 / 2 ^ 20 in
      let vita_hdr = word mem 2 in
      leb (pkt_words32 * 4) (length c.bytes)
      && (vita_hdr % 2 ^ 16 == (pkt_words32 + 2 ^ 64 - 3) % 2 ^ 64
          && (seq12 / 4 % 2 * 4 == vita_hdr / 2 ^ 16 % 2 ^ 4
              && (bit vita_hdr vita_sid
                  && (not (bit vita_hdr (2 ^ 30))
                      && (not (bit vita_hdr (2 ^ 27))
                          && (not (bit vita_hdr (2 ^ 26))
                              && (not (bit vita_hdr (2 ^ 23)) && not (bit vita_hdr (2 ^ 22)))))))))

  unfoldable pub unpack_fields : Chunk → Unpacked
  unpack_fields c =
      let mem = memory c in
      let pkt_bytes = word mem 1 % 2 ^ 20 in
      let has_tsf = bit (word mem 2) vita_tsf in
      let hdr = (if has_tsf then 6 else 4) * 4 in
      record {
        seq = word mem 1 / 2 ^ 20;
        sid = word mem 3;
        has_tsf = has_tsf;
        tsf = word mem 4 * 2 ^ 32 + word mem 5;
        is_ext = bit (word mem 2) vita_ext;
        payload = take ((pkt_bytes + 2 ^ 64 - hdr - 4) % 2 ^ 64) (drop hdr mem);
      }

  unfoldable pub unpack_buffer : Chunk → Outcome Error Unpacked
  unfolding unpack_checks unpack_fields
  unpack_buffer c =
      if unpack_checks c then returns (unpack_fields c) else throws assertion_violation

  -- the part of `handlePacket` behind `unpackBuffer`
  unfoldable pub post_unpacked : Deserializer → Unpacked → Run
  post_unpacked d u =
      if leb d.outputs u.sid
      then (throws range_error, [], d)
      else (if not u.is_ext
          then (
            returns tt,
            buffer u.sid u.payload ∷ [],
            record d { next_expected_index = (u.tsf + length u.payload) % 2 ^ 64 },
          )
          else (if u.has_tsf
              then (
                returns tt,
                label u.sid ((u.tsf + 2 ^ 64 - d.next_expected_index) % 2 ^ 64) u.payload ∷ [],
                d,
              )
              else (returns tt, message u.sid u.payload ∷ [], d)))

  unfoldable pub handle_packet : Deserializer → Chunk → Run
  unfolding unpack_buffer post_unpacked
  handle_packet d c = elim (unpack_buffer c) [
    | throws e ↦ (throws e, [], d)
    | returns u ↦ post_unpacked d u
  ]

  module _ (fresh : List ℕ) where
    -- the packet that is looked at in one round
    unfoldable pub inspect_head : List Chunk → Inspection
    unfolding inspect_packet get_appended_buffers
    inspect_head cs =
        let first = inspect_packet (get_appended_buffers fresh cs min_pkt_bytes) true 0 in
        let packet =
          get_appended_buffers fresh cs
            (if ltb min_pkt_bytes first.pkt_bytes then first.pkt_bytes else min_pkt_bytes) in
        inspect_packet packet first.is_fragment first.pkt_bytes

    -- How a round ends: the loop goes on, or `work` is left.
    unfoldable pub round : Deserializer → Bool × Run
    unfolding inspect_head handle_packet clear_bytes_from_buffers
    round d =
        let i = inspect_head d.buffers in
        let (o, posts, d') =
          handle_packet d (get_appended_buffers fresh d.buffers (pad_up32 i.pkt_bytes)) in
        if not i.valid
        then (true, (returns tt, [], record d { buffers = clear_bytes_from_buffers d.buffers 1 }))
        else (if i.is_fragment then (false, (returns tt, [], d)) else (elim o [
          | throws e ↦ (false, (throws e, posts, d'))
          | returns _ ↦ (
            true,
            (
              returns tt,
              posts,
              record d' { buffers = clear_bytes_from_buffers d.buffers i.pkt_bytes },
            ),
          )
        ]))

    -- The loop of `work`. The fuel is the number of rounds.
    unfoldable pub loop : ℕ → Deserializer → Run
    unfolding round
    loop zero d = (throws out_of_fuel, [], d)
    loop (suc fuel) d = elim (ltb (get_total_buffer_size d.buffers) min_pkt_bytes) [
      | true ↦ (returns tt, [], d)
      | false ↦
          let (again, run) = round d in
          let (o, posts, d') = run in
          elim again [
            | false ↦ (o, posts, d')
            | true ↦ let (o', posts', d'') = loop fuel d' in (o', posts ++ posts', d'')
          ]
    ]

    -- `work` on what the input port has
    unfoldable pub work : ℕ → Deserializer → Chunk → Run
    unfolding loop
    work fuel d c =
        if length c.bytes == 0
        then (returns tt, [], d)
        else loop fuel (record d { buffers = d.buffers ++ (c ∷ []) })
