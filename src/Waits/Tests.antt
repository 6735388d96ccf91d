-- ===== src/Waits/Tests.antt =====
-- Two slots, one of them taken, and the passes of a call that waits.
use shadow_lan.Base.{
  ℕ, ◌≡◌, ◌≢◌, ◌+◌, refl, true, false, [], ◌∷◌, List, some, none, arith, if◌then◌else◌,
}
use shadow_lan.Stream.App.{Sent, queued, full, reset, Popped, nothing}
use shadow_lan.Waits.{
  Slot, slot_at, arm, give_up, wait_done, rearm, sleep_time, Look, tcp_wait, send_wait,
}
use shadow_lan.Waits.Pokes.{pokes, arm_and_poke, arm-pokes, wait_done-arm_and_poke}
use shadow_lan.Waits.Loops.{tcp_wait-returns, tcp_wait-starved, send_wait-returns}

abbrev busy : Slot
busy = record {
  used = true;
  armed = true;
  watches_all = true;
  paired = true;
  socks = [];
  bytes = 0;
}

abbrev spare : Slot
spare = record {
  used = false;
  armed = false;
  watches_all = false;
  paired = false;
  socks = [];
  bytes = 0;
}

abbrev table : List Slot
table = busy ∷ spare ∷ []

sleeps :
    (sleep_time none (some 20) ≡ 5)
    × (sleep_time (some 1) none ≡ 100)
    × (sleep_time (some 1) (some 40) ≡ 40)
unfolding sleep_time
sleeps = (refl, refl, refl)

done_row : slot_at 0 (rearm 0 (wait_done (λ t. t) 0 table)) ≡ some (record busy { used = false })
unfolding rearm wait_done give_up
done_row = refl

arms : (arm true (some (5 ∷ [])) table).1 ≡ some 1
unfolding arm
arms = refl

arm-pokes_example :
    (x : Slot) × (slot_at 1 table ≡ some x)
    × (x.used ≡ false)
    × ((j : ℕ) → 1 ≢ j → slot_at j (arm true (some (5 ∷ [])) table).0 ≡ slot_at j table)
    × (y : Slot) × (slot_at 1 (pokes (9 ∷ 5 ∷ 5 ∷ []) (arm true (some (5 ∷ [])) table).0) ≡ some y)
    × (y.bytes ≡ (if x.paired then x.bytes else 0) + 1)
    × (y.armed ≡ false)
arm-pokes_example = arm-pokes true (some (5 ∷ [])) table 1 (9 ∷ 5 ∷ 5 ∷ []) arms

arms_again : (arm true (some (7 ∷ [])) (give_up 0 table)).1 ≡ some 0
unfolding arm give_up
arms_again = refl

wait_done-arm_and_poke_example :
    (y : Slot) × (slot_at 0 (wait_done (arm_and_poke true (some (7 ∷ [])) 7) 0 table) ≡ some y)
    × (y.used ≡ true)
    × (y.armed ≡ false)
    × (y.bytes ≡ 0)
wait_done-arm_and_poke_example =
    wait_done-arm_and_poke true (some (7 ∷ [])) table 0 7 arms_again refl

abbrev quiet : Look
quiet = record { popped = nothing; armed = false; now = 500; alive = true }

abbrev late : Look
late = record quiet { now = 1000 }

tcp_wait-returns_example :
    (r : Popped) × (tcp_wait (some 1000) false 0 true (quiet ∷ late ∷ []) ≡ some r)
tcp_wait-returns_example = tcp_wait-returns false 0 1000 (quiet ∷ late ∷ []) refl

tcp_wait_starved_test : tcp_wait (some 1000) false 0 false (quiet ∷ late ∷ []) ≡ none
tcp_wait_starved_test =
    tcp_wait-starved (some 1000) 0 (quiet ∷ late ∷ []) ((refl, refl), ((refl, refl), tt))

send_wait_returns_test :
    (r : Sent) × (send_wait false 5 0 (
        queued 2
        ∷ full
        ∷ queued 2
        ∷ full
        ∷ queued 1
        ∷ full
        ∷ full
        ∷ full
        ∷ full
        ∷ full
        ∷ reset
        ∷ reset
        ∷ reset
        ∷ [])
      ≡ some r)
send_wait_returns_test =
    send_wait-returns false 5 0
      (queued 2
        ∷ full
        ∷ queued 2
        ∷ full
        ∷ queued 1
        ∷ full
        ∷ full
        ∷ full
        ∷ full
        ∷ full
        ∷ reset
        ∷ reset
        ∷ reset
        ∷ [])
      (omega arith) (omega arith)
