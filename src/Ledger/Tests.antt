-- ===== src/Ledger/Tests.antt =====
-- slp_claim and slp_release on a registry of three processes.
use shadow_lan.Base.{List, ◌≡◌, refl, true, false, [], ◌∷◌, some, arith, replicate, ◌==◌, ◌*◌, ◌||◌}
use shadow_lan.Ledger.{
  Entry, Registry, Process, Os, alive, stale, slp_max, fresh, shared, conflict, unavailable, attach,
  allocate, claim, release, sock_dgram, sock_stream, used, taken, entry,
}
use shadow_lan.Ledger.Owner.{owner, claim-Outcome, claim_other, Outcome}
use shadow_lan.Ledger.Exclusive.{
  IsExclusive, claim-IsExclusive, release-IsExclusive, attach-IsExclusive,
}
use shadow_lan.Ledger.Handover.{
  Op, claims, releases, acts, claim-claim, claim-release, shared_unrecorded,
}

-- Processes 10 and 11 run, 12 does not.
abbrev os : Os
os = record { signals = λ pid. pid == 10 || pid == 11; starttime = λ pid. pid * 100 }

abbrev game : Process
game = record { node = 7; pid = 10 }

abbrev tool : Process
tool = record { node = 7; pid = 11 }

abbrev third : Process
third = record { node = 7; pid = 12 }

abbrev wiped : Registry
wiped = record { gen = 0; e = [] }

-- Port 5000 of process 10, with reuse.
abbrev held : Entry
held = entry os game 5000 sock_dgram 1 41000

abbrev room : Entry
room = record held { used = false }

abbrev one_row : Registry
one_row = record { gen = 1; e = held ∷ room ∷ [] }

abbrev fresh_table : Registry
fresh_table = attach 0 wiped

fresh_table-IsExclusive : IsExclusive fresh_table
fresh_table-IsExclusive = attach-IsExclusive 0 wiped (λ e. absurd (omega (arith, e)))

-- Process 10 has claimed port 5000 in a registry that was just wiped.
abbrev held_table : Registry
held_table = (claim true os game 5000 sock_dgram 1 41000 fresh_table).1

held_table-IsExclusive : IsExclusive held_table
held_table-IsExclusive =
    claim-IsExclusive os game 5000 sock_dgram 1 41000 fresh_table true fresh_table-IsExclusive

owner-held_table : owner held_table 7 5000 sock_dgram ≡ some held
unfolding claim allocate attach
owner-held_table = refl

held_runs : stale os held ≡ false
unfolding alive
held_runs = refl

-- A full registry of live rows has no room; the same registry with one dead holder does.
full_registry :
    ((claim true os tool 80 sock_stream 0 0 (record { gen = 0; e = replicate slp_max held })).0
      ≡ unavailable)
    × ((claim true os tool 80 sock_stream 0 0
          (record { gen = 0; e = record held { pid = 12 } ∷ replicate 191 held })).0
        ≡ fresh)
unfolding claim allocate alive
full_registry = (refl, refl)

counts : (used true one_row ≡ 1) × (taken true tool 5000 one_row ≡ true)
unfolding used taken
counts = (refl, refl)

claim-Outcome_example :
    Outcome true os game 5000 sock_dgram 1 41000 fresh_table
      (claim true os game 5000 sock_dgram 1 41000 fresh_table).0
      held_table
claim-Outcome_example = claim-Outcome true os game 5000 sock_dgram 1 41000 fresh_table

claim_other_test :
    owner (claim true os tool 80 sock_stream 0 0 held_table).1 7 5000 sock_dgram ≡ some held
claim_other_test =
    claim_other os tool 80 sock_stream 0 0 held_table 7 5000 sock_dgram held refl owner-held_table
      held_runs

claim-IsExclusive_example : IsExclusive (claim true os tool 5000 sock_dgram 1 0 held_table).1
claim-IsExclusive_example =
    claim-IsExclusive os tool 5000 sock_dgram 1 0 held_table true held_table-IsExclusive

release_IsExclusive_test : IsExclusive (release true game 5000 sock_dgram held_table)
release_IsExclusive_test =
    release-IsExclusive true game 5000 sock_dgram held_table held_table-IsExclusive

-- The tool tries the game's port, and releases it, which it does not hold.
abbrev others : List Op
others = claims tool 5000 sock_dgram 0 0 ∷ releases tool 5000 sock_dgram ∷ []

claim-claim_example :
    (claim true os tool 5000 sock_dgram 0 0
      (acts os others (claim true os game 5000 sock_dgram 1 41000 fresh_table).1)).0
    ≡ conflict
unfolding claim allocate attach
claim-claim_example =
    claim-claim os game tool 5000 sock_dgram 1 0 41000 0 fresh_table refl others refl (omega arith)
      refl (refl, (refl, tt))

claim-release_example :
    (claim true os tool 5000 sock_dgram 0 0 (release true game 5000 sock_dgram held_table)).0
    ≡ fresh
claim-release_example =
    claim-release os game tool 5000 sock_dgram 0 0 0 0 held_table refl held held_table-IsExclusive
      owner-held_table refl

shared_unrecorded_example :
    let (verdict, h) = claim true os tool 5000 sock_dgram 1 0 held_table in
    (verdict ≡ shared)
    × ((claim true os third 5000 sock_dgram 0 0 (release true game 5000 sock_dgram h)).0 ≡ fresh)
shared_unrecorded_example =
    shared_unrecorded os game tool third 5000 sock_dgram 1 0 0 held_table held refl refl
      held_table-IsExclusive owner-held_table refl held_runs refl
