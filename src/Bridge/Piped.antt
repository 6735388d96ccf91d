-- ===== src/Bridge/Piped.antt =====
-- What the pipe has carried in each direction, and its two notices.
use shadow_lan.Base.{
  ℕ, ◌≡◌, ◌∙◌, ap, sym, refl, true, false, ◌&&◌, not, [], ◌∷◌, ◌++◌, arith, if◌then◌else◌, take,
  drop, take-append-drop, if-keeps_under,
}
use shadow_lan.Wire.{Bytes}
use shadow_lan.Bridge.{Pipe, is_held, shut_notice, end_notice}

-- What each direction carried, and what its end means
pub record IsPiped (p : Pipe) : Type 0 where
  pub outward : p.from_game ≡ p.to_relay ++ p.out_hold
  pub inward : p.from_relay ≡ p.to_game ++ p.in_hold
  pub shut :
      p.shut_sent ≡ true
      → (p.fin_real ≡ true) × (p.to_relay ≡ p.from_game) × (is_held p.out_hold ≡ false)
  pub eof :
      p.eof_sent ≡ true
      → (p.fin_fd ≡ true) × (p.to_game ≡ p.from_relay) × (is_held p.in_hold ≡ false)
  pub once : p.notices ≡ (if p.shut_sent then 1 else 0)
  pub once_end : p.ends ≡ (if p.eof_sent then 1 else 0)

pub append-nil : (b : Bytes) → b ++ [] ≡ b
append-nil [] = refl
append-nil (x ∷ b) = ap (λ z. x ∷ z) (append-nil b)

pub not_held : (b : Bytes) → is_held b ≡ false → b ≡ []
not_held [] h = refl
not_held (x ∷ b) h = absurd (cc)

pub append_assoc : (a b c : Bytes) → (a ++ b) ++ c ≡ a ++ (b ++ c)
append_assoc [] b c = refl
append_assoc (x ∷ a) b c = ap (λ z. x ∷ z) (append_assoc a b c)

pub moved : (done hold : Bytes) (k : ℕ) → done ++ hold ≡ (done ++ take k hold) ++ drop k hold
moved done hold k =
    sym (
      append_assoc done (take k hold) (drop k hold) ∙ ap (λ b. done ++ b) (take-append-drop k hold))

pub all_moved : (got done hold : Bytes) → got ≡ done ++ hold → is_held hold ≡ false → done ≡ got
all_moved got done hold h e = sym (h ∙ ap (λ b. done ++ b) (not_held hold e) ∙ append-nil done)

pub shut_notice-IsPiped : (p : Pipe) → IsPiped p → IsPiped (shut_notice p)
unfolding shut_notice
shut_notice-IsPiped p v =
    if-keeps_under IsPiped (not p.shut_sent && (p.fin_real && not (is_held p.out_hold))) _ _
      (λ e. record {
        outward = v.outward;
        inward = v.inward;
        shut = λ h. (
          ground arith,
          all_moved p.from_game p.to_relay p.out_hold v.outward (ground arith),
          ground arith,
        );
        eof = v.eof;
        once = ground (arith, v.once);
        once_end = v.once_end;
      })
      (λ e. v)

pub end_notice-IsPiped : (p : Pipe) → IsPiped p → IsPiped (end_notice p)
unfolding end_notice
end_notice-IsPiped p v =
    if-keeps_under IsPiped (p.fin_fd && (not p.eof_sent && not (is_held p.in_hold))) _ _
      (λ e. record {
        outward = v.outward;
        inward = v.inward;
        shut = v.shut;
        eof = λ h. (
          ground arith,
          all_moved p.from_relay p.to_game p.in_hold v.inward (ground arith),
          ground arith,
        );
        once = v.once;
        once_end = ground (arith, v.once_end);
      })
      (λ e. v)
