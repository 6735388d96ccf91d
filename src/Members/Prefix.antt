-- ===== src/Members/Prefix.antt =====
-- The octet test of dt_virt_node and dt_in_vnet against the first bits of the two addresses.
use native.Mathlib.Nat.{pow-suc, div-div-eq-div-mul}
use shadow_lan.Base.{
  Bool-cases, ℕ, zero, suc, ◌+◌, ◌-◌, ◌*◌, ◌/◌, ◌%◌, ◌^◌, ◌≤◌, ◌<◌, ◌≡◌, ◌⊎◌, inl, inr, refl, ap,
  ◌∙◌, ◌&&◌, [], ◌∷◌, arith, ◌==◌, bit_and, length, take,
}
use shadow_lan.Base.Bits.{bit_and-ones, bit_and-shift}
use shadow_lan.Wire.{Bytes, put32, at}
use shadow_lan.Wire.Numbers.{put32_digits}
use shadow_lan.Members.{same_bytes, mask, has_prefix}

-- The two powers that make up an octet
abbrev Powers : ℕ → ℕ → Type 0
Powers r k =
    (2 ^ r ≡ 2) × (2 ^ k ≡ 128)
    ⊎ ((2 ^ r ≡ 4) × (2 ^ k ≡ 64)
        ⊎ ((2 ^ r ≡ 8) × (2 ^ k ≡ 32)
            ⊎ ((2 ^ r ≡ 16) × (2 ^ k ≡ 16)
                ⊎ ((2 ^ r ≡ 32) × (2 ^ k ≡ 8)
                    ⊎ ((2 ^ r ≡ 64) × (2 ^ k ≡ 4) ⊎ ((2 ^ r ≡ 128) × (2 ^ k ≡ 2)))))))

masked :
    (r k x y a b : ℕ)
    → Powers r k
    → a < 256
    → b < 256
    → ((x == y) && (bit_and a ((2 ^ r - 1) * 2 ^ k) == bit_and b ((2 ^ r - 1) * 2 ^ k)))
      ≡ ((x * 256 + a) / 2 ^ k == (y * 256 + b) / 2 ^ k)
masked r k x y a b e ha hb = ground (
  arith,
  bit_and-shift k a (2 ^ r - 1),
  bit_and-shift k b (2 ^ r - 1),
  bit_and-ones r (a / 2 ^ k),
  bit_and-ones r (b / 2 ^ k),
  e,
)

powers : (r : ℕ) → 0 < r → r < 8 → Powers r (8 - r) × (mask r ≡ (2 ^ r - 1) * 2 ^ (8 - r))
powers zero pos small = absurd (omega arith)
powers (suc zero) pos small = (inl (refl, refl), refl)
powers (suc (suc zero)) pos small = (inr (inl (refl, refl)), refl)
powers (suc (suc (suc zero))) pos small = (inr (inr (inl (refl, refl))), refl)
powers (suc (suc (suc (suc zero)))) pos small = (inr (inr (inr (inl (refl, refl)))), refl)
powers (suc (suc (suc (suc (suc zero))))) pos small =
    (inr (inr (inr (inr (inl (refl, refl))))), refl)
powers (suc (suc (suc (suc (suc (suc zero)))))) pos small =
    (inr (inr (inr (inr (inr (inl (refl, refl)))))), refl)
powers (suc (suc (suc (suc (suc (suc (suc zero))))))) pos small =
    (inr (inr (inr (inr (inr (inr (refl, refl)))))), refl)
powers (suc (suc (suc (suc (suc (suc (suc (suc r)))))))) pos small = absurd (omega arith)

-- The first `r` bits of an octet, after equal numbers
octet :
    (r x y a b : ℕ)
    → 0 < r
    → r < 8
    → a < 256
    → b < 256
    → ((x == y) && (bit_and a (mask r) == bit_and b (mask r)))
      ≡ ((x * 256 + a) / 2 ^ (8 - r) == (y * 256 + b) / 2 ^ (8 - r))
octet r x y a b pos small ha hb =
    let (split, e) = powers r pos small in rw e (masked r (8 - r) x y a b split ha hb)

next_octet :
    (f h : ℕ)
    → f < 4
    → (h / 2 ^ (24 - 8 * f) ≡ h / 2 ^ (32 - 8 * f) * 256 + at (put32 h) f) × (at (put32 h) f < 256)
next_octet zero h le = ground (arith, put32_digits h)
next_octet (suc zero) h le = ground (arith, put32_digits h)
next_octet (suc (suc zero)) h le = ground (arith, put32_digits h)
next_octet (suc (suc (suc zero))) h le = ground (arith, put32_digits h)
next_octet (suc (suc (suc (suc f)))) h le = absurd (omega arith)

same_take :
    (f : ℕ) (xs ys : Bytes)
    → f < length xs
    → f < length ys
    → same_bytes (take (suc f) xs) (take (suc f) ys)
      ≡ (same_bytes (take f xs) (take f ys) && (at xs f == at ys f))
same_take f [] ys h k = absurd (omega arith)
same_take f (x ∷ xs) [] h k = absurd (omega arith)
same_take zero (x ∷ xs) (y ∷ ys) h k = ground arith
same_take (suc f) (x ∷ xs) (y ∷ ys) h k = ground (arith, same_take f xs ys)

next_equal :
    (x y a b : ℕ) → a < 256 → b < 256 → ((x == y) && (a == b)) ≡ (x * 256 + a == y * 256 + b)
next_equal x y a b ha hb = ground arith

length_put32 : (h : ℕ) → length (put32 h) ≡ 4
unfolding put32
length_put32 h = refl

next_shift : (f h : ℕ) → f < 4 → h / 2 ^ (32 - 8 * suc f) ≡ h / 2 ^ (24 - 8 * f)
next_shift f h lt = ap (λ k. h / 2 ^ k) (omega arith)

-- The octets of an address
same_octets :
    (f n h : ℕ)
    → f ≤ 4
    → n < 2 ^ 32
    → h < 2 ^ 32
    → same_bytes (take f (put32 n)) (take f (put32 h))
      ≡ (n / 2 ^ (32 - 8 * f) == h / 2 ^ (32 - 8 * f))
same_octets zero n h le hn hh = ground arith
same_octets (suc f) n h le hn hh =
    let (dn, an) = next_octet f n (omega arith) in
    let (dh, ah) = next_octet f h (omega arith) in
    ground (
      arith,
      same_take f (put32 n) (put32 h),
      length_put32 n,
      length_put32 h,
      same_octets f n h (omega arith) hn hh,
      next_equal (n / 2 ^ (32 - 8 * f)) (h / 2 ^ (32 - 8 * f)) (at (put32 n) f) (at (put32 h) f) an
          ah,
      dn,
      dh,
      next_shift f n (omega arith),
      next_shift f h (omega arith),
    )

-- The number that the first `bits` bits of an address make
abbrev pub prefix : ℕ → ℕ → ℕ
prefix bits h = h / 2 ^ (32 - bits)

pow_add : (a b : ℕ) → 2 ^ a * 2 ^ b ≡ 2 ^ (a + b)
pow_add zero b = omega (arith, ap (λ (k : ℕ). 2 ^ k) {x = 0 + b} {y = b} (omega arith))
pow_add (suc a) b = grind (
  arith,
  pow-suc 2 a,
  pow-suc 2 (a + b),
  ap (λ (k : ℕ). 2 ^ k) {x = suc a + b} {y = suc (a + b)} (omega arith),
  pow_add a b,
)

two_shifts :
    (bits h : ℕ) → bits < 32 → h / 2 ^ (24 - 8 * (bits / 8)) / 2 ^ (8 - bits % 8) ≡ prefix bits h
two_shifts bits h lt =
    div-div-eq-div-mul h (2 ^ (24 - 8 * (bits / 8))) (2 ^ (8 - bits % 8))
    ∙ ap (λ m. h / m) (pow_add (24 - 8 * (bits / 8)) (8 - bits % 8) ∙ ap (λ k. 2 ^ k) (omega arith))

-- For at most 32 bits, the octets and the mask compare the first `bits` bits of two 32-bit
-- addresses.
pub has_prefix_lem :
    (bits n h : ℕ)
    → bits ≤ 32
    → n < 2 ^ 32
    → h < 2 ^ 32
    → has_prefix bits (put32 n) (put32 h) ≡ (prefix bits n == prefix bits h)
unfolding has_prefix
has_prefix_lem bits n h le hn hh = elim (Bool-cases (bits % 8 == 0)) [
  | inl e ↦ ground (
    arith,
    same_octets (bits / 8) n h (omega arith) hn hh,
    ap (λ k. n / 2 ^ k) {x = 32 - 8 * (bits / 8)} {y = 32 - bits} (ground arith),
    ap (λ k. h / 2 ^ k) {x = 32 - 8 * (bits / 8)} {y = 32 - bits} (ground arith),
  )
  | inr e ↦
      let (dn, an) = next_octet (bits / 8) n (ground arith) in
      let (dh, ah) = next_octet (bits / 8) h (ground arith) in
      ground (
        arith,
        same_octets (bits / 8) n h (omega arith) hn hh,
        octet (bits % 8) (n / 2 ^ (32 - 8 * (bits / 8))) (h / 2 ^ (32 - 8 * (bits / 8)))
            (at (put32 n) (bits / 8)) (at (put32 h) (bits / 8)) (ground arith) (omega arith) an ah,
        dn,
        dh,
        two_shifts bits n (ground arith),
        two_shifts bits h (ground arith),
      )
]
