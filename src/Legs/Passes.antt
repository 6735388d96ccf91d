-- ===== src/Legs/Passes.antt =====
-- What the loops of a framed send and receive have moved when they stop.
use shadow_lan.Base.{
  ℕ, zero, suc, ◌+◌, ◌-◌, ◌≤◌, ◌≡◌, ◌∙◌, ap, sym, refl, Bool, true, false, inl, inr, List, [], ◌∷◌,
  ◌++◌, ltb, ◌==◌, min, arith, if◌then◌else◌, length, take, drop, take-append-drop, drop-drop,
  length-drop, Bool-cases, Every, if-keeps,
}
use shadow_lan.Wire.{Bytes}
use shadow_lan.Legs.{
  Reply, moved, blocked, broken, closed, Select, waited, interrupted, refused, Try, failed, through,
  wait, Sent, sent_pass, moved_by, send_all, Got, recv_all,
}

pub append-nil : (b : Bytes) → b ++ [] ≡ b
append-nil [] = refl
append-nil (x ∷ b) = ap (λ z. x ∷ z) (append-nil b)

pub append_assoc : (a b c : Bytes) → (a ++ b) ++ c ≡ a ++ (b ++ c)
append_assoc [] b c = refl
append_assoc (x ∷ a) b c = ap (λ z. x ∷ z) (append_assoc a b c)

pub wait-keeps :
    {A : Type 0} (P : A → Type 0) (tmo t0 : ℕ) (t : Try) (stop again : A)
    → P stop
    → P again
    → P (wait tmo t0 t stop again)
wait-keeps P tmo t0 t stop again p q = go t.select
  where
    go :
        (s : Select)
        → P (elim s [
          | refused ↦ stop
          | interrupted ↦ again
          | waited ↦ if ltb (t0 + tmo) t.now then stop else again
        ])
    go refused = p
    go interrupted = q
    go waited = if-keeps P (ltb (t0 + tmo) t.now) stop again p q

-- What went out is the beginning of what was to go, and all of it if the loop is through.
abbrev pub IsPart : Bytes → Sent → Type 0
IsPart whole s = (rest : Bytes) × (s.wire ++ rest ≡ whole) × (s.state ≡ through → rest ≡ [])

module _ (tmo t0 : ℕ) where
  sent_pass-keeps :
      (P : Sent → Type 0) (wire b : Bytes) (t : Try) (r : Reply) (more again : Sent)
      → P (record { state = failed; wire = wire })
      → P more
      → P again
      → P (sent_pass tmo t0 wire b t r more again)
  sent_pass-keeps P wire b t (moved k) more again p q r = q
  sent_pass-keeps P wire b t blocked more again p q r = wait-keeps P tmo t0 t _ again p r
  sent_pass-keeps P wire b t broken more again p q r = p
  sent_pass-keeps P wire b t (closed e) more again p q r =
      if-keeps P e _ _ (wait-keeps P tmo t0 t _ again p r) p

  pub send_all-IsPart :
      (ts : List Try) (wire b : Bytes) → IsPart (wire ++ b) (send_all tmo t0 wire b ts)
  unfolding send_all
  send_all-IsPart [] wire [] = ([], refl, λ h. refl)
  send_all-IsPart [] wire (x ∷ b) = (x ∷ b, refl, λ h. absurd (cc))
  send_all-IsPart (t ∷ ts) wire [] = ([], refl, λ h. refl)
  send_all-IsPart (t ∷ ts) wire (x ∷ b) =
      sent_pass-keeps (IsPart (wire ++ (x ∷ b))) wire (x ∷ b) t t.reply _ _
        (x ∷ b, refl, λ h. absurd (cc))
        (further (moved_by t.reply) _ (
          send_all-IsPart ts (wire ++ take (moved_by t.reply) (x ∷ b))
            (drop (moved_by t.reply) (x ∷ b))))
        (send_all-IsPart ts wire (x ∷ b))
    where
      further :
          (k : ℕ) (s : Sent)
          → IsPart ((wire ++ take k (x ∷ b)) ++ drop k (x ∷ b)) s
          → IsPart (wire ++ (x ∷ b)) s
      further k s (rest, same, all) = (
        rest,
        same ∙ append_assoc wire _ _ ∙ ap (λ z. wire ++ z) (take-append-drop k (x ∷ b)),
        all,
      )

-- A pass on which bytes are moved
abbrev pub IsFast : Try → Type 0
IsFast t = (n : ℕ) × (t.reply ≡ moved (suc n))

take-nil : (n : ℕ) → take {A = ℕ} n [] ≡ []
take-nil zero = refl
take-nil (suc n) = refl

take-take : (k m : ℕ) (xs : Bytes) → take k xs ++ take m (drop k xs) ≡ take (k + m) xs
take-take zero m xs = ap (λ k. take k xs) {x = m} {y = 0 + m} (omega arith)
take-take (suc k) m [] = take-nil m ∙ sym (take-nil (suc k + m))
take-take (suc k) m (x ∷ xs) =
    ap (λ z. x ∷ z) (take-take k m xs)
    ∙ ap (λ n. take n (x ∷ xs)) {x = suc (k + m)} {y = suc k + m} (omega arith)

-- The loop is through with what it needs, from a peer that has sent it, after as many passes at most as
-- it needs bytes.
abbrev pub IsThrough : ℕ → Bytes → Bytes → List Try → Got → Type 0
IsThrough need got src ts g =
    (g.state ≡ through)
    × (g.bytes ≡ got ++ take need src)
    × (g.src ≡ drop need src)
    × Every IsFast g.rest
    × (length ts ≤ need + length g.rest)

empty_need :
    (got src : Bytes) (need : ℕ) → need ≡ 0 → (got ≡ got ++ take need src) × (src ≡ drop need src)
empty_need got src need e = rw e (sym (append-nil got), refl)

module _ (header : Bool) (tmo t0 : ℕ) where
  none_needed :
      (ts : List Try) (need : ℕ) (got src : Bytes)
      → need ≡ 0
      → Every IsFast ts
      → IsThrough need got src ts (recv_all header tmo t0 need got src ts)
  unfolding recv_all
  none_needed [] need got src e fast =
      (ground arith, (empty_need got src need e).0, (empty_need got src need e).1, tt, omega arith)
  none_needed (t ∷ ts) need got src e fast =
      rw (need_none e)
        (refl, (empty_need got src need e).0, (empty_need got src need e).1, fast, omega arith)
    where
      need_none : need ≡ 0 → (need == 0) ≡ true
      need_none e = ground arith

  -- One pass that moves `k` of the bytes that are needed
  further :
      (t : Try) (ts : List Try) (need k : ℕ) (got src : Bytes) (g : Got)
      → 1 ≤ k
      → k ≤ need
      → IsThrough (need - k) (got ++ take k src) (drop k src) ts g
      → IsThrough need got src (t ∷ ts) g
  further t ts need k got src g some fits (state, bytes, left, fast, few) = (
    state,
    bytes
        ∙ append_assoc got _ _
        ∙ ap (λ z. got ++ z) (take-take k (need - k) src ∙ ap (λ m. take m src) whole),
    left ∙ drop-drop (need - k) k src ∙ ap (λ m. drop m src) whole,
    fast,
    omega (arith, few, some, fits),
  )
    where
      whole : k + (need - k) ≡ need
      whole = omega (arith, fits)

  moving :
      (t : Try) (ts : List Try) (need n : ℕ) (got src : Bytes)
      → t.reply ≡ moved (suc n)
      → (need == 0) ≡ false
      → recv_all header tmo t0 need got src (t ∷ ts)
        ≡ recv_all header tmo t0
            (need - min (suc n) need)
            (got ++ take (min (suc n) need) src)
            (drop (min (suc n) need) src)
            ts
  unfolding recv_all
  moving t ts need n got src e some = rw (some, e) refl

  pub recv_all-IsThrough :
      (ts : List Try) (need : ℕ) (got src : Bytes)
      → Every IsFast ts
      → need ≤ length ts
      → need ≤ length src
      → IsThrough need got src ts (recv_all header tmo t0 need got src ts)
  recv_all-IsThrough [] need got src fast h k = none_needed [] need got src (omega (arith, h)) fast
  recv_all-IsThrough (t ∷ ts) need got src ((n, e), fast) h k = elim (Bool-cases (need == 0)) [
    | inl z ↦ none_needed (t ∷ ts) need got src (ground arith) ((n, e), fast)
    | inr z ↦ rw (moving t ts need n got src e z) (
        further t ts need (min (suc n) need) got src _ (ground arith) (ground arith) (
          recv_all-IsThrough ts (need - min (suc n) need) _ _ fast (ground arith)
            (omega (arith, length-drop (min (suc n) need) src, k))))
  ]
