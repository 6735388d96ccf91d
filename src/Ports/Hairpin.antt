-- ===== src/Ports/Hairpin.antt =====
-- What dt_getpeer answers for a dial that stays on this host, before and after the socket is closed.
use shadow_lan.Base.{
  ℕ, ◌≤◌, ◌≡◌, ◌≢◌, true, ◌||◌, List, [], ◌∷◌, Option, none, some, arith, ◌==◌, any, count,
  find?-modify_first_hit, find?-some, find?-modify_first_gone, ap, ◌∙◌,
}
use mathlib.Core.Option
use shadow_lan.Net.{Addr}
use shadow_lan.Ports.{Dial, of_sock, remember, forget, dialled}

abbrev shown : Option Dial → Option Addr
shown none = none
shown (some d) = some d.dest

-- A remembered dial is the one that dt_getpeer shows, if the table has room.
pub dialled-remember :
    (s : ℕ) (dest : Addr) (t : List Dial)
    → s ≢ 0
    → any (λ d. d.sock == 0 || d.sock == s) t ≡ true
    → dialled s (remember s dest t) ≡ some dest
unfolding dialled remember
dialled-remember s dest t named room =
    let place = λ (d : Dial). d.sock == 0 || d.sock == s in
    let (x, found, _) = find?-some place t room in
    let hit =
      find?-modify_first_hit place (of_sock s) (λ d. record { sock = s; dest = dest })
        (λ d h. ground (arith)) (λ d h. ground (arith)) t in
    ap shown (hit ∙ ap (Option.map (λ d. record { sock = s; dest = dest })) found)

-- A socket that has one row is forgotten with it.
pub dialled-forget :
    (s : ℕ) (t : List Dial) → s ≢ 0 → count (of_sock s) t ≤ 1 → dialled s (forget s t) ≡ none
unfolding dialled forget
dialled-forget s t named one =
    ap shown
      (find?-modify_first_gone (of_sock s) (λ d. record d { sock = 0 }) (λ d. ground (arith)) t one)

-- Where a row before the socket's own was freed, a second dial of the socket leaves its old row
-- behind: after the socket is forgotten dt_getpeer still shows the first destination.
pub dialled-stale :
    (s other : ℕ) (old new dest : Addr)
    → s ≢ 0
    → other ≢ 0
    → s ≢ other
    → dialled s (
        forget s (
          remember s new (
            forget other
              (record { sock = other; dest = dest } ∷ record { sock = s; dest = old } ∷ []))))
      ≡ some old
unfolding dialled forget remember
dialled-stale s other old new dest h k apart = ground (arith)
