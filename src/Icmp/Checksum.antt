-- ===== src/Icmp/Checksum.antt =====
-- dt_icmp_build_rep makes replies that the checksum of RFC 1071 accepts.
use shadow_lan.Base.{
  ℕ, ◌+◌, ◌*◌, ◌/◌, ◌%◌, ◌^◌, ◌≤◌, ◌<◌, ◌≡◌, ap, ◌∙◌, [], ◌∷◌, ◌++◌, some, arith, length, bit_or,
  Every,
}
use shadow_lan.Base.Bits.{bit_or-shift}
use shadow_lan.Wire.{Bytes, put16, get16, shl}
use shadow_lan.Wire.Numbers.{put16_digits, get16-put16}
use shadow_lan.Icmp.{words, fold, complement, cksum, reply, build_rep, parse_req}

-- The sum of the words, without a limit
abbrev pub total : Bytes → ℕ
total [] = 0
total (a ∷ []) = a * 256
total (a ∷ b ∷ bs) = a * 256 + b + total bs

abbrev pub IsOctet : ℕ → Type 0
IsOctet a = a < 256

total_bound : (b : Bytes) → Every IsOctet b → total b ≤ 65535 * length b
total_bound [] h = omega arith
total_bound (a ∷ []) h = ground arith
total_bound (a ∷ c ∷ bs) h = ground (arith, total_bound bs)

word_lem : (a b : ℕ) → a < 256 → b < 256 → bit_or (shl a 8) b ≡ a * 256 + b
word_lem a b ha hb = ground (arith, bit_or-shift 8 a b)

words_lem :
    (b : Bytes) (s : ℕ) → Every IsOctet b → s + 65535 * length b < 2 ^ 32 → words b s ≡ s + total b
unfolding words
words_lem [] s h small = omega arith
words_lem (a ∷ []) s h small = ground arith
words_lem (a ∷ c ∷ bs) s h small = ground (arith, word_lem a c, words_lem bs (s + (a * 256 + c)))

-- The folded sum is a 16-bit number that is the same modulo 65535, and 0 only for 0.
pub fold_lem :
    (s : ℕ)
    → s < 2 ^ 32
    → (k : ℕ) × (s ≡ fold 3 s + 65535 * k) × (fold 3 s < 2 ^ 16) × (0 < s → 0 < fold 3 s)
unfolding fold
fold_lem s h =
    let t = s % 2 ^ 16 + s / 2 ^ 16 in
    (s / 2 ^ 16 + t / 2 ^ 16, ground arith, ground arith, λ pos. ground arith)

-- No more rounds are needed: the loop has ended after three.
pub fold_enough : (s n : ℕ) → s < 2 ^ 32 → fold (3 + n) s ≡ fold 3 s
unfolding fold
fold_enough s n h = ground arith

-- A sum and the complement of its fold fold to 65535.
closes :
    (r x k j : ℕ)
    → x ≡ complement (fold 3 r) + r
    → r ≡ fold 3 r + 65535 * k
    → fold 3 r < 2 ^ 16
    → (0 < r → 0 < fold 3 r)
    → x ≡ fold 3 x + 65535 * j
    → fold 3 x < 2 ^ 16
    → (0 < x → 0 < fold 3 x)
    → complement (fold 3 x) ≡ 0
closes r x k j sum er lr pr ex lx px = ground arith

module _ (id seq : ℕ) (body : Bytes) (ok : Every IsOctet body) (small : length body < 2 ^ 15) where
  reply_octets :
      (c : ℕ)
      → reply c id seq body
        ≡ 0
          ∷ 0
          ∷ c / 2 ^ 8 % 256
          ∷ c % 256
          ∷ id / 2 ^ 8 % 256
          ∷ id % 256
          ∷ seq / 2 ^ 8 % 256
          ∷ seq % 256
          ∷ body
  reply_octets c = ground (arith, put16_digits c, put16_digits id, put16_digits seq)

  words-reply :
      (c : ℕ)
      → c < 2 ^ 16
      → words (reply c id seq body) 0 ≡ c + (id % 2 ^ 16 + seq % 2 ^ 16 + total body)
  words-reply c hc =
      ap (λ b. words b 0) (reply_octets c)
      ∙ (words_lem _ 0
            (
              omega arith,
              (
                omega arith,
                (
                  omega arith,
                  (omega arith, (omega arith, (omega arith, (omega arith, (omega arith, ok))))),
                ),
              ),
            )
            (omega arith)
          ∙ ground (arith))

  -- The checksum of a reply, its own checksum included, is 0, for a payload of fewer than 2 ^ 15
  -- octets.
  pub cksum-build_rep : cksum (build_rep id seq body) ≡ 0
  unfolding build_rep cksum
  cksum-build_rep =
      let s = words (reply 0 id seq body) 0 in
      let c = complement (fold 3 s) in
      let plain = words-reply 0 (omega arith) in
      let full = words-reply c (omega arith) in
      let bound = total_bound body ok in
      let (k, e, lt, pos) = fold_lem s (omega arith) in
      let (j, e2, lt2, pos2) = fold_lem (words (reply c id seq body) 0) (omega arith) in
      closes (words (reply 0 id seq body) 0) (words (reply c id seq body) 0) k j
        (omega (arith, plain, full)) e lt pos e2 lt2 pos2

-- dt_icmp_parse_req reads an echo request's id, sequence number and payload.
pub parse_req-request :
    (c id seq : ℕ) (body : Bytes)
    → id < 2 ^ 16
    → seq < 2 ^ 16
    → parse_req (8 ∷ 0 ∷ (put16 c ++ (put16 id ++ (put16 seq ++ body))))
      ≡ some (record { id = id; seq = seq; body = body })
unfolding parse_req put16 get16
parse_req-request c id seq body hi hs =
    ground (arith, get16-put16 id (put16 seq ++ body), get16-put16 seq body)
