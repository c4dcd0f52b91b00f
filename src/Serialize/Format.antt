-- ===== src/Serialize/Format.antt =====
-- serialize/SerializeCommon.hpp
use pothos_blocks.Shared.{ℕ, ◌+◌, ◌*◌, ◌/◌, ◌^◌}

-- `(len+3) & ~3`: the two low bits are cleared.
unfoldable pub pad_up32 : ℕ → ℕ
pad_up32 len = (len + 3) / 4 * 4

-- "mVRL"
abbrev pub mvrl : ℕ
mvrl = b'm' * 2 ^ 24 + b'V' * 2 ^ 16 + b'R' * 2 ^ 8 + b'L'

-- "VEND"
abbrev pub vend : ℕ
vend = b'V' * 2 ^ 24 + b'E' * 2 ^ 16 + b'N' * 2 ^ 8 + b'D'

abbrev pub vita_sid : ℕ
vita_sid = 2 ^ 28

abbrev pub vita_ext : ℕ
vita_ext = 2 ^ 29

abbrev pub vita_tsf : ℕ
vita_tsf = 2 ^ 20

abbrev pub min_pkt_bytes : ℕ
min_pkt_bytes = 20

abbrev pub max_pkt_bytes : ℕ
max_pkt_bytes = 128 * 1024
