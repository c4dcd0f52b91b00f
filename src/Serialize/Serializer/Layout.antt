-- ===== src/Serialize/Serializer/Layout.antt =====
-- Where the fields of a packed packet lie.
use pothos_blocks.Shared.{
  ℕ, ◌+◌, ◌-◌, ◌*◌, ◌/◌, ◌%◌, ◌^◌, ◌<◌, ◌≡◌, refl, sym, ap, ◌∙◌, Bool, true, false, Option, none,
  some, List, ◌++◌, arith, length, drop, length-append, drop-append_of_length, drop-add,
}
use mathlib.Core.List.{append_assoc}
use pothos_blocks.ByteOrder.{ByteOrder}
use pothos_blocks.Serialize.Format.{mvrl}
use pothos_blocks.Serialize.Serializer.{
  hdr_words32, pkt_bytes, pkt_words32, vrl_word, vita_word, tsf_words, pack_head,
}
use pothos_blocks.Serialize.Serializer.Words.{vita_flags, vrl_word_lem, vita_word_lem}

hdr-four : (tsf : Option ℕ) → (hdr_words32 tsf - 4) * 4 + 16 ≡ hdr_words32 tsf * 4
hdr-four none = refl
hdr-four (some t) = refl

vita-small : (tsf : Option ℕ) (is_ext : Bool) (n : ℕ) → vita_flags tsf is_ext + n % 2 ^ 16 < 2 ^ 32
vita-small none false n = omega arith
vita-small none true n = omega arith
vita-small (some t) false n = omega arith
vita-small (some t) true n = omega arith

module _ (bo : ByteOrder) where
  -- the word at index `i` of a memory
  abbrev pub load_at : List ℕ → ℕ → ℕ
  load_at mem i = bo.load32 (drop (i * 4) mem)

  pub load_at-zero : (x : ℕ) (rest : List ℕ) → x < 2 ^ 32 → load_at (bo.store32 x ++ rest) 0 ≡ x
  load_at-zero x rest h = bo.load32-store32 x rest h

  pub load_at-suc :
      (a i : ℕ) (rest : List ℕ) → load_at (bo.store32 a ++ rest) (1 + i) ≡ load_at rest i
  load_at-suc a i rest =
      let four : 4 + i * 4 ≡ (1 + i) * 4 = omega arith in
      ap bo.load32 (
        ap (λ n. drop n (bo.store32 a ++ rest)) (sym four)
        ∙ sym (drop-add 4 (i * 4) (bo.store32 a ++ rest))
        ∙ ap (drop (i * 4)) (drop-append_of_length 4 (bo.store32 a) rest (bo.length-store32 a)))

  -- a word behind `i` other words
  pub load_at-behind :
      (i x : ℕ) (pre rest : List ℕ)
      → length pre ≡ i * 4
      → x < 2 ^ 32
      → load_at (pre ++ (bo.store32 x ++ rest)) i ≡ x
  load_at-behind i x pre rest len h =
      ap bo.load32 (drop-append_of_length (i * 4) pre (bo.store32 x ++ rest) len)
      ∙ bo.load32-store32 x rest h

  length-tsf_words : (tsf : Option ℕ) → length (tsf_words bo tsf) ≡ (hdr_words32 tsf - 4) * 4
  unfolding tsf_words
  length-tsf_words none = refl
  length-tsf_words (some t) = grind (
    arith,
    length-append,
    bo.length-store32 (t / 2 ^ 32 % 2 ^ 32),
    bo.length-store32 (t % 2 ^ 32),
  )

  -- four words and what follows them
  abbrev pub four_words : ℕ → ℕ → ℕ → ℕ → List ℕ → List ℕ
  four_words a b c d rest =
      bo.store32 a ++ (bo.store32 b ++ (bo.store32 c ++ (bo.store32 d ++ rest)))

  load_at-four_words :
      (a b c d : ℕ) (rest : List ℕ)
      → a < 2 ^ 32
      → b < 2 ^ 32
      → c < 2 ^ 32
      → d < 2 ^ 32
      → let mem = four_words a b c d rest in
        (load_at mem 0 ≡ a) × (load_at mem 1 ≡ b) × (load_at mem 2 ≡ c) × (load_at mem 3 ≡ d)
  load_at-four_words a b c d rest p q r s = (
    load_at-zero a _ p,
    load_at-suc a 0 _ ∙ load_at-zero b _ q,
    load_at-suc a 1 _ ∙ load_at-suc b 0 _ ∙ load_at-zero c _ r,
    load_at-suc a 2 _ ∙ load_at-suc b 1 _ ∙ load_at-suc c 0 _ ∙ load_at-zero d _ s,
  )

  load_at-fifth :
      (a b c d i : ℕ) (rest : List ℕ)
      → load_at (four_words a b c d rest) (1 + (1 + (1 + (1 + i)))) ≡ load_at rest i
  load_at-fifth a b c d i rest =
      load_at-suc a _ _ ∙ load_at-suc b _ _ ∙ load_at-suc c _ _ ∙ load_at-suc d i rest

  -- A word behind the first four: the time stamp's two.
  pub load_at-tsf :
      (a b c d t : ℕ) (rest : List ℕ)
      → t < 2 ^ 64
      → let mem = four_words a b c d (tsf_words bo (some t) ++ rest) in
        load_at mem 4 * 2 ^ 32 + load_at mem 5 ≡ t
  unfolding tsf_words
  load_at-tsf a b c d t rest h =
      let hi = t / 2 ^ 32 % 2 ^ 32 in
      let lo = t % 2 ^ 32 in
      let mem = (bo.store32 hi ++ bo.store32 lo) ++ rest in
      let mem' = bo.store32 hi ++ (bo.store32 lo ++ rest) in
      let same = append_assoc (bo.store32 hi) (bo.store32 lo) rest in
      omega (
        arith,
        load_at-fifth a b c d 0 mem ∙ ap (λ m. load_at m 0) same ∙ load_at-zero hi _ (omega arith),
        load_at-fifth a b c d 1 mem
            ∙ ap (λ m. load_at m 1) same
            ∙ load_at-suc hi 0 (bo.store32 lo ++ rest)
            ∙ load_at-zero lo rest (omega arith),
      )

  module _ (seq sid : ℕ) (tsf : Option ℕ) (is_ext : Bool) (len : ℕ) where
    -- the header's four words, and the time stamp
    pub pack_head-four_words :
        (rest : List ℕ)
        → pack_head bo seq sid tsf is_ext len ++ rest
          ≡ four_words mvrl
              (pkt_bytes tsf len % 2 ^ 20)
              (vita_flags tsf is_ext + (pkt_words32 tsf len - 3) % 2 ^ 16)
              (sid % 2 ^ 32)
              (tsf_words bo tsf ++ rest)
    unfolding pack_head
    pack_head-four_words rest =
        rw
          (
            vrl_word_lem seq (pkt_bytes tsf len),
            vita_word_lem seq tsf is_ext (pkt_words32 tsf len - 3),
          )
          (simp append_assoc)

    pub length-pack_head : length (pack_head bo seq sid tsf is_ext len) ≡ hdr_words32 tsf * 4
    unfolding pack_head
    length-pack_head =
        let w1 = vrl_word seq (pkt_bytes tsf len) in
        let w2 = vita_word seq tsf is_ext (pkt_words32 tsf len - 3) in
        let four : (hdr_words32 tsf - 4) * 4 + 16 ≡ hdr_words32 tsf * 4 = hdr-four tsf in
        grind (
          arith,
          length-append,
          bo.length-store32 mvrl,
          bo.length-store32 w1,
          bo.length-store32 w2,
          bo.length-store32 (sid % 2 ^ 32),
          length-tsf_words tsf,
        )

    pub head_words :
        (rest : List ℕ)
        → let mem = pack_head bo seq sid tsf is_ext len ++ rest in
          (load_at mem 0 ≡ mvrl)
          × (load_at mem 1 ≡ pkt_bytes tsf len % 2 ^ 20)
          × (load_at mem 2 ≡ vita_flags tsf is_ext + (pkt_words32 tsf len - 3) % 2 ^ 16)
          × (load_at mem 3 ≡ sid % 2 ^ 32)
    head_words rest = rw (pack_head-four_words rest) (
        load_at-four_words mvrl (pkt_bytes tsf len % 2 ^ 20)
          (vita_flags tsf is_ext + (pkt_words32 tsf len - 3) % 2 ^ 16) (sid % 2 ^ 32)
          (tsf_words bo tsf ++ rest) (omega arith) (omega arith)
          (vita-small tsf is_ext (pkt_words32 tsf len - 3)) (omega arith))
