-- ===== src/Routes/Outcomes.antt =====
-- Where a connect and a datagram that the hook takes end up in its tables.
use shadow_lan.Base.{
  ℕ, ◌≡◌, ◌≢◌, ◌∙◌, sym, refl, Bool, true, false, ◌||◌, not, [], Option, none, some, ◌==◌,
  if◌then◌else◌, any, find?-some, any-find?, if-keeps, if-keeps_under,
}
use shadow_lan.Net.{Addr, ipv4_is_local, is_lan_target}
use shadow_lan.Ledger.{sock_stream}
use shadow_lan.Members.{virt_node, is_dial_local}
use shadow_lan.Stream.{Stream, connecting, by_sock, allocated, is_free, of_sock}
use shadow_lan.Stream.Close.Slots.{by_sock-alloc, by_sock_lem}
use shadow_lan.Ports.{remember, dialled}
use shadow_lan.Ports.Hairpin.{dialled-remember}
use shadow_lan.Routes.{
  Site, World, reject_wire4, Connect, passed, failed, hairpin, tunnelled, is_some, hairpin_to, dial,
  on_connect,
}

module _ (k : Site) (connects : Addr → Bool) (s sid : ℕ) (dst : Addr) (w : World) where
  abbrev connect : World × Connect
  connect = on_connect k connects sock_stream s dst sid w

  abbrev Hairpin : World × Connect → Type 0
  Hairpin r = r.1 ≡ hairpin → r.0 ≡ record w { dials = remember s dst w.dials }

  abbrev Tunnelled : World × Connect → Type 0
  Tunnelled r =
      r.1 ≡ tunnelled → (is_some (by_sock w.streams s) ≡ false) × (r.0 ≡ (dial s dst sid w).0)

  hairpin_lem : Hairpin connect
  unfolding on_connect
  hairpin_lem =
      if-keeps Hairpin (ipv4_is_local k.own dst.ip) _ _ (λ h. absurd (cc))
        (if-keeps Hairpin (reject_wire4 k w.lease dst) _ _ (λ h. absurd (cc))
          (if-keeps Hairpin (is_some (by_sock w.streams s)) _ _ (λ h. absurd (cc))
            (if-keeps Hairpin (is_dial_local k.me (virt_node w.lease dst.ip)) _ _
              (if-keeps Hairpin (connects (hairpin_to w.ta dst)) _ _ (λ h. refl) (λ h. absurd (cc)))
              (if-keeps Hairpin (not (virt_node w.lease dst.ip == 0) || is_lan_target k.only dst) _
                _ (λ h. absurd (cc))
                (if-keeps Hairpin (reject_wire4 k w.lease dst) _ _ (λ h. absurd (cc))
                  (λ h. absurd (cc)))))))

  to_stream :
      is_some (by_sock w.streams s) ≡ false
      → Tunnelled (
          if is_dial_local k.me (virt_node w.lease dst.ip)
          then (if connects (hairpin_to w.ta dst)
              then (record w { dials = remember s dst w.dials }, hairpin)
              else (w, failed))
          else if not (virt_node w.lease dst.ip == 0) || is_lan_target k.only dst
          then dial s dst sid w
          else if reject_wire4 k w.lease dst
          then (w, failed)
          else (w, passed))
  to_stream fresh =
      if-keeps Tunnelled (is_dial_local k.me (virt_node w.lease dst.ip)) _ _
        (if-keeps Tunnelled (connects (hairpin_to w.ta dst)) _ _ (λ h. absurd (cc))
          (λ h. absurd (cc)))
        (if-keeps Tunnelled (not (virt_node w.lease dst.ip == 0) || is_lan_target k.only dst) _ _
          (λ h. (fresh, refl))
          (if-keeps Tunnelled (reject_wire4 k w.lease dst) _ _ (λ h. absurd (cc))
            (λ h. absurd (cc))))

  tunnelled_lem : Tunnelled connect
  unfolding on_connect
  tunnelled_lem =
      if-keeps Tunnelled (ipv4_is_local k.own dst.ip) _ _ (λ h. absurd (cc))
        (if-keeps Tunnelled (reject_wire4 k w.lease dst) _ _ (λ h. absurd (cc))
          (if-keeps_under Tunnelled (is_some (by_sock w.streams s)) _ _ (λ e h. absurd (cc))
            to_stream))

  -- A connect that is completed on this host shows the address that was dialled as its peer, if the
  -- table of dials has room, and its stream table is as before.
  pub dialled-on_connect :
      s ≢ 0
      → any (λ d. d.sock == 0 || d.sock == s) w.dials ≡ true
      → connect.1 ≡ hairpin
      → (dialled s connect.0.dials ≡ some dst) × (connect.0.streams ≡ w.streams)
  dialled-on_connect named room h =
      rw (hairpin_lem h) (dialled-remember s dst w.dials named room, refl)

  -- A connect that is taken into the tunnel gives the descriptor a stream to the address, that is
  -- connecting and has nothing queued, if a row is free; the descriptor had none.
  pub by_sock-on_connect :
      s ≢ 0
      → any is_free w.streams ≡ true
      → connect.1 ≡ tunnelled
      → (by_sock w.streams s ≡ none)
        × (st : Stream) × (by_sock connect.0.streams s ≡ some st)
        × (st.orig ≡ dst)
        × (st.sid ≡ sid)
        × (st.state ≡ connecting)
        × (st.outq ≡ [])
  by_sock-on_connect named room h =
      let (fresh, same) = tunnelled_lem h in
      let (x, free, _) = find?-some is_free w.streams room in
      let unknown : by_sock w.streams s ≡ none = no_row (by_sock w.streams s) fresh in
      (
        unknown,
        allocated s dst sid x,
        rw same (
            by_sock-alloc w.streams s sid dst x named
              (any-find? (of_sock s) w.streams (sym (by_sock_lem w.streams s named) ∙ unknown))
              free),
        refl,
        refl,
        refl,
        refl,
      )
    where
      no_row : (o : Option Stream) → is_some o ≡ false → o ≡ none
      no_row none e = refl
      no_row (some st) e = absurd (cc)
