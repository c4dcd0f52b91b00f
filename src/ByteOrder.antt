-- ===== src/ByteOrder.antt =====
-- The byte order conversions of Poco::ByteOrder, which is not part of this repository, as
-- network/SocketEndpoint.cpp and serialize/ use them.
use pothos_blocks.Shared.{ℕ, ◌+◌, ◌*◌, ◌/◌, ◌%◌, ◌<◌, ◌^◌, ◌≡◌, List, [], ◌∷◌, ◌++◌, length}

-- `store32 x` is the memory that holds `Poco::ByteOrder::toNetwork(x)`, and `load32 m` is
-- `Poco::ByteOrder::fromNetwork` of the word at the start of the memory `m`; so for the other widths.
-- Network order is big-endian.
pub record ByteOrder : Type 0 where
  pub store16 : ℕ → List ℕ
  pub store32 : ℕ → List ℕ
  pub store64 : ℕ → List ℕ
  pub load16 : List ℕ → ℕ
  pub load32 : List ℕ → ℕ
  pub load64 : List ℕ → ℕ
  pub length-store16 : (x : ℕ) → length (store16 x) ≡ 2
  pub length-store32 : (x : ℕ) → length (store32 x) ≡ 4
  pub length-store64 : (x : ℕ) → length (store64 x) ≡ 8
  pub load16-store16 : (x : ℕ) (rest : List ℕ) → x < 2 ^ 16 → load16 (store16 x ++ rest) ≡ x
  pub load32-store32 : (x : ℕ) (rest : List ℕ) → x < 2 ^ 32 → load32 (store32 x ++ rest) ≡ x
  pub load64-store64 : (x : ℕ) (rest : List ℕ) → x < 2 ^ 64 → load64 (store64 x ++ rest) ≡ x
  pub store32_big_endian :
      (x : ℕ)
      → x < 2 ^ 32
      → store32 x ≡ x / 2 ^ 24 ∷ (x / 2 ^ 16 % 256 ∷ (x / 2 ^ 8 % 256 ∷ (x % 256 ∷ [])))
  pub load32_big_endian :
      (a b c d : ℕ) (rest : List ℕ)
      → load32 (a ∷ (b ∷ (c ∷ (d ∷ rest)))) ≡ a * 2 ^ 24 + b * 2 ^ 16 + c * 2 ^ 8 + d
