-- ===== src/Wire.antt =====
-- hook/hk_core.c, hook/hk_ports.c: big-endian numbers in frames, and the bytes of a control frame.
pub mod Numbers
use shadow_lan.Base.{ℕ, ◌+◌, ◌*◌, ◌/◌, ◌%◌, ◌^◌, ◌∷◌, [], List, bit_and, bit_or, get_or}

abbrev pub Bytes : Type 0
Bytes = List ℕ

-- `x >> k`
abbrev pub shr : ℕ → ℕ → ℕ
shr x k = x / 2 ^ k

-- `(unsigned)x << k`
abbrev pub shl : ℕ → ℕ → ℕ
shl x k = x * 2 ^ k % 2 ^ 32

-- `b[i]`
abbrev pub at : Bytes → ℕ → ℕ
at b i = get_or b i 0

-- dt_put32: the four bytes that it stores
unfoldable pub put32 : ℕ → Bytes
put32 v =
    bit_and (shr v 24) 255 ∷ bit_and (shr v 16) 255 ∷ bit_and (shr v 8) 255 ∷ bit_and v 255 ∷ []

-- dt_get32
unfoldable pub get32 : Bytes → ℕ
get32 b = bit_or (bit_or (bit_or (shl (at b 0) 24) (shl (at b 1) 16)) (shl (at b 2) 8)) (at b 3)

-- dt_put16
unfoldable pub put16 : ℕ → Bytes
put16 v = bit_and (shr v 8) 255 ∷ bit_and v 255 ∷ []

-- dt_get16
unfoldable pub get16 : Bytes → ℕ
get16 b = bit_or (shl (at b 0) 8) (at b 1)
