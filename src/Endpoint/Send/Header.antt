-- ===== src/Endpoint/Send/Header.antt =====
-- The fields of a packet header, read back from its memory.
use pothos_blocks.Shared.{
  ℕ, ◌%◌, ◌<◌, ◌≡◌, sym, ap, ◌∙◌, List, ◌++◌, [], length, drop, arith, length-append,
  drop-append_of_length, drop-add,
}
use mathlib.Core.List.{append-nil}
use pothos_blocks.Endpoint.Types.{packet_header_word, header_size, mod16, mod32}
use pothos_blocks.ByteOrder.{ByteOrder}
use pothos_blocks.Endpoint.Send.{pack_header}

module _ (bo : ByteOrder) (flags type n count : ℕ) where
  abbrev word : List ℕ
  word = bo.store32 packet_header_word

  abbrev size : List ℕ
  size = bo.store32 (n % mod32)

  abbrev counts : List ℕ
  counts = bo.store32 count

  pub length-pack_header : length (pack_header bo flags type n count) ≡ header_size
  unfolding pack_header
  length-pack_header = grind (
    arith,
    length-append,
    bo.length-store16 flags,
    bo.length-store16 type,
    bo.length-store32 packet_header_word,
    bo.length-store32 (n % mod32),
    bo.length-store32 count,
  )

  drop_4 :
      drop 4 (pack_header bo flags type n count)
      ≡ bo.store16 flags ++ (bo.store16 type ++ (size ++ counts))
  unfolding pack_header
  drop_4 = drop-append_of_length 4 word _ (bo.length-store32 packet_header_word)

  drop_6 : drop 6 (pack_header bo flags type n count) ≡ bo.store16 type ++ (size ++ counts)
  drop_6 =
      sym (drop-add 4 2 (pack_header bo flags type n count))
      ∙ ap (drop 2) drop_4
      ∙ drop-append_of_length 2 (bo.store16 flags) _ (bo.length-store16 flags)

  drop_8 : drop 8 (pack_header bo flags type n count) ≡ size ++ counts
  drop_8 =
      sym (drop-add 6 2 (pack_header bo flags type n count))
      ∙ ap (drop 2) drop_6
      ∙ drop-append_of_length 2 (bo.store16 type) _ (bo.length-store16 type)

  drop_12 : drop 12 (pack_header bo flags type n count) ≡ counts ++ []
  drop_12 =
      sym (drop-add 8 4 (pack_header bo flags type n count))
      ∙ ap (drop 4) drop_8
      ∙ drop-append_of_length 4 size _ (bo.length-store32 (n % mod32))
      ∙ sym (append-nil counts)

  pub read_word : bo.load32 (pack_header bo flags type n count) ≡ packet_header_word
  unfolding pack_header
  read_word = bo.load32-store32 packet_header_word _ (omega arith)

  pub read_flags : flags < mod16 → bo.load16 (drop 4 (pack_header bo flags type n count)) ≡ flags
  read_flags h = ap bo.load16 drop_4 ∙ bo.load16-store16 flags _ h

  pub read_type : type < mod16 → bo.load16 (drop 6 (pack_header bo flags type n count)) ≡ type
  read_type h = ap bo.load16 drop_6 ∙ bo.load16-store16 type _ h

  pub read_size : n < mod32 → bo.load32 (drop 8 (pack_header bo flags type n count)) ≡ n
  read_size h = ap bo.load32 drop_8 ∙ bo.load32-store32 (n % mod32) _ (omega arith) ∙ omega arith

  pub read_count : count < mod32 → bo.load32 (drop 12 (pack_header bo flags type n count)) ≡ count
  read_count h = ap bo.load32 drop_12 ∙ bo.load32-store32 count _ h
