-- ===== src/Alias/Tests.antt =====
-- A table of three rows where socket 5 presents port 6112.
use shadow_lan.Base.{◌≡◌, ◌<◌, ◌≢◌, refl, true, false, [], ◌∷◌, some, arith, inr, length, any, ℕ}
use shadow_lan.Ledger.{Registry, Process, Entry}
use shadow_lan.Alias.{
  Row, Table, of_sock, add, vport, real, vport_by_real, mark_bindv, is_bindv, drop, release_all,
}
use shadow_lan.Alias.Presentation.{vport-add, real-add, vport-add_other, vport-drop}
use shadow_lan.Alias.Rows.{IsTable, add-IsTable, is_bindv-add_stale}
use shadow_lan.Alias.Release.{IsReleased, release_all_lem}

abbrev free_row : Row
free_row = record { sock = 0; vport = 0; real = 0; proto = 0; bindv = false }

abbrev game : Row
game = record { sock = 5; vport = 6112; real = 41000; proto = 2; bindv = false }

abbrev table : Table
table = game ∷ free_row ∷ free_row ∷ []

named : (n : ℕ) → 0 < n → n ≢ 0
named n h e = omega (arith, h, e)

vport_add_test : vport (add table 6 2300 42000 1) 6 ≡ some 2300
vport_add_test = vport-add table 6 2300 42000 1 (omega arith) (inr refl)

real_add_test :
    (real (add table 6 2300 42000 1) 2300 1 ≡ 42000)
    × (vport_by_real (add table 6 2300 42000 1) 42000 1 ≡ 2300)
real_add_test =
    real-add table 6 2300 42000 1 (omega arith) (omega arith) (omega arith) (named 6 (omega arith))
      (inr refl) refl refl

vport_add_other_test : vport (add table 6 2300 42000 1) 5 ≡ vport table 5
vport_add_other_test =
    vport-add_other table 6 2300 42000 1 5 (λ e. absurd (omega (arith, e))) (named 5 (omega arith))

vport_drop_test :
    (any (of_sock 5) (drop table 5) ≡ false)
    × ((s : ℕ) → s ≢ 5 → s ≢ 0 → vport (drop table 5) s ≡ vport table s)
vport_drop_test = vport-drop table 5 (named 5 (omega arith))

table-IsTable : IsTable table
unfolding IsTable
table-IsTable = λ s h. ground (arith)

add_IsTable_test : IsTable (add table 6 2300 42000 1) × (length (add table 6 2300 42000 1) ≡ 3)
add_IsTable_test = add-IsTable table 6 2300 42000 1 table-IsTable

-- Socket 5 was bound to the vnode and is closed; socket 6, which never was, counts as bound to it.
is_bindv-add_stale_test : is_bindv (add (drop (mark_bindv table 5) 5) 6 2300 42000 1) 6 ≡ true
unfolding drop mark_bindv
is_bindv-add_stale_test =
    is_bindv-add_stale table 5 6 2300 42000 1 game refl refl (named 5 (omega arith))
      (named 6 (omega arith)) refl

abbrev process : Process
process = record { node = 7; pid = 10 }

abbrev held : Entry
held = record {
  used = true;
  node = 7;
  vport = 6112;
  proto = 2;
  reuse = 0;
  real = 41000;
  pid = 10;
  start = 1000;
}

abbrev registry : Registry
registry = record { gen = 1; e = held ∷ [] }

release_all_lem_test : IsReleased process 6112 2 (release_all true process table 5 registry)
release_all_lem_test = release_all_lem process table 5 registry 6112 2 refl
