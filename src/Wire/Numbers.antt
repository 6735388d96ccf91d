-- ===== src/Wire/Numbers.antt =====
-- dt_put32, dt_get32, dt_put16 and dt_get16 against the base-256 value of their bytes.
use shadow_lan.Base.{
  ◌++◌, refl, ap, ◌∙◌, drop, length, ℕ, ◌+◌, ◌*◌, ◌/◌, ◌%◌, ◌^◌, ◌<◌, ◌≡◌, ◌∷◌, [], arith, bit_and,
}
use shadow_lan.Base.Bits.{bit_or-shift, bit_and-ones}
use shadow_lan.Wire.{Bytes, put32, get32, put16, get16}

pub low_byte : (v : ℕ) → bit_and v 255 ≡ v % 256
low_byte v = bit_and-ones 8 v

-- The bytes of dt_put32 are the base-256 digits.
pub put32_digits :
    (v : ℕ) → put32 v ≡ v / 2 ^ 24 % 256 ∷ v / 2 ^ 16 % 256 ∷ v / 2 ^ 8 % 256 ∷ v % 256 ∷ []
unfolding put32
put32_digits v =
    ground (arith, low_byte (v / 2 ^ 24), low_byte (v / 2 ^ 16), low_byte (v / 2 ^ 8), low_byte v)

pub put16_digits : (v : ℕ) → put16 v ≡ v / 2 ^ 8 % 256 ∷ v % 256 ∷ []
unfolding put16
put16_digits v = ground (arith, low_byte (v / 2 ^ 8), low_byte v)

-- dt_get32 of four bytes is their value.
pub get32_value :
    (a b c d : ℕ) (rest : Bytes)
    → a < 256
    → b < 256
    → c < 256
    → d < 256
    → get32 (a ∷ b ∷ c ∷ d ∷ rest) ≡ a * 2 ^ 24 + b * 2 ^ 16 + c * 2 ^ 8 + d
unfolding get32
get32_value a b c d rest ha hb hc hd = ground (
  arith,
  bit_or-shift 24 a (b * 2 ^ 16),
  bit_or-shift 16 (a * 2 ^ 8 + b) (c * 2 ^ 8),
  bit_or-shift 8 (a * 2 ^ 16 + b * 2 ^ 8 + c) d,
)

pub get16_value :
    (a b : ℕ) (rest : Bytes) → a < 256 → b < 256 → get16 (a ∷ b ∷ rest) ≡ a * 2 ^ 8 + b
unfolding get16
get16_value a b rest ha hb = ground (arith, bit_or-shift 8 a b)

-- dt_get32 reads back what dt_put32 stored.
pub get32-put32 : (v : ℕ) (rest : Bytes) → v < 2 ^ 32 → get32 (put32 v ++ rest) ≡ v
get32-put32 v rest h =
    ap get32 (ap (λ b. b ++ rest) (put32_digits v))
    ∙ (get32_value (v / 2 ^ 24 % 256) (v / 2 ^ 16 % 256) (v / 2 ^ 8 % 256) (v % 256) rest
          (omega arith) (omega arith) (omega arith) (omega arith)
        ∙ omega arith)

-- dt_get16 reads back what dt_put16 stored.
pub get16-put16 : (v : ℕ) (rest : Bytes) → v < 2 ^ 16 → get16 (put16 v ++ rest) ≡ v
get16-put16 v rest h =
    ap get16 (ap (λ b. b ++ rest) (put16_digits v))
    ∙ (get16_value (v / 2 ^ 8 % 256) (v % 256) rest (omega arith) (omega arith) ∙ omega arith)

pub drop-put32 : (v : ℕ) (rest : Bytes) → drop 4 (put32 v ++ rest) ≡ rest
unfolding put32
drop-put32 v rest = refl

pub drop-put16 : (v : ℕ) (rest : Bytes) → drop 2 (put16 v ++ rest) ≡ rest
unfolding put16
drop-put16 v rest = refl

pub length-put32 : (v : ℕ) (rest : Bytes) → length (put32 v ++ rest) ≡ 4 + length rest
unfolding put32
length-put32 v rest = omega arith

pub length-put16 : (v : ℕ) (rest : Bytes) → length (put16 v ++ rest) ≡ 2 + length rest
unfolding put16
length-put16 v rest = omega arith
