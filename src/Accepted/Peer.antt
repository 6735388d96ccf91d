-- ===== src/Accepted/Peer.antt =====
-- Which peer an accepted socket shows.
use shadow_lan.Base.{
  ℕ, ◌%◌, ◌^◌, ◌≤◌, ◌≡◌, ◌≢◌, refl, ap, ◌∙◌, true, false, List, [], ◌∷◌, Option, none, some, arith,
  any, find?, count, find?-some, find?-modify_first_hit, find?-modify_first_gone,
}
use mathlib.Core.Option
use shadow_lan.Net.{Addr}
use shadow_lan.Accepted.{
  Hosted, Session, Accepted, State, bridges, of_session, of_fd, place, write, learn_fd, get,
  forget_fd,
}

abbrev shown : Option Accepted → Option (Addr × ℕ)
shown none = none
shown (some a) = some (record { ip = a.vnode; port = a.lport % 2 ^ 16 }, a.bport)

get-write :
    (fd vnode lport bport : ℕ) (t : List Accepted)
    → any (place fd) t ≡ true
    → get fd (write fd vnode lport bport t)
      ≡ some (record { ip = vnode; port = lport % 2 ^ 16 }, bport)
unfolding get
get-write fd vnode lport bport t room =
    let row : Accepted = record {
      used = true;
      gsock = fd;
      vnode = vnode;
      lport = lport;
      bport = bport;
    } in
    let (x, found, _) = find?-some (place fd) t room in
    let hit =
      find?-modify_first_hit (place fd) (of_fd fd) (λ _. row) (λ a h. ground (arith))
        (λ a h. ground (arith)) t in
    ap shown (hit ∙ ap (Option.map (λ _. row)) found)

module _ (fd sp listen : ℕ) (w : State) where
  -- An accepted socket shows the opener of the bridge that its peer's port names, and keeps the
  -- port of the real peer, if the table has room.
  pub get-learn_fd :
      (h : Hosted)
      → find? (bridges sp listen) w.hosted ≡ some h
      → any (place fd) w.acc ≡ true
      → get fd (learn_fd fd sp listen w).acc
        ≡ some (record { ip = h.ovirt; port = h.lport % 2 ^ 16 }, sp)
  unfolding learn_fd
  get-learn_fd h found room = rw (learn_fd, found) (get-write fd h.ovirt h.lport sp w.acc room)

  -- Without a bridge it shows the sender of the hosted datagram session with that port.
  pub get-learn_fd_session :
      (u : Session)
      → find? (bridges sp listen) w.hosted ≡ none
      → find? (of_session sp) w.sessions ≡ some u
      → any (place fd) w.acc ≡ true
      → get fd (learn_fd fd sp listen w).acc
        ≡ some (record { ip = u.ovirt; port = u.game_port % 2 ^ 16 }, sp)
  unfolding learn_fd
  get-learn_fd_session u absent found room =
      rw (learn_fd, absent, found) (get-write fd u.ovirt u.game_port sp w.acc room)

  -- With neither nothing is learned.
  pub learn_fd-none :
      find? (bridges sp listen) w.hosted ≡ none
      → find? (of_session sp) w.sessions ≡ none
      → learn_fd fd sp listen w ≡ w
  unfolding learn_fd
  learn_fd-none absent absent' = rw (learn_fd, absent, absent') refl

-- A forgotten socket that had one row shows its real peer again.
pub get-forget_fd :
    (fd : ℕ) (t : List Accepted) → count (of_fd fd) t ≤ 1 → get fd (forget_fd fd t) ≡ none
unfolding get forget_fd
get-forget_fd fd t one = ap shown (
    find?-modify_first_gone (of_fd fd) (λ a. record a { used = false }) (λ a. ground (arith)) t one)

-- After a row before the socket's own was freed, learning the socket again gives it a second row,
-- and forgetting it brings the first one's peer back.
pub get-stale :
    (fd other : ℕ) (old new : Accepted)
    → fd ≢ other
    → old.used ≡ true
    → old.gsock ≡ fd
    → new.used ≡ true
    → new.gsock ≡ other
    → (v l b : ℕ)
    → get fd (forget_fd fd (write fd v l b (forget_fd other (new ∷ old ∷ []))))
      ≡ some (record { ip = old.vnode; port = old.lport % 2 ^ 16 }, old.bport)
unfolding get forget_fd
get-stale fd other old new apart u g u' g' v l b = ground (arith)
