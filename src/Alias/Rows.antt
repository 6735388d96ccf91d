-- ===== src/Alias/Rows.antt =====
-- The rows of g_ta: one for each socket, and the bound-to-vnode mark that a freed row keeps.
use shadow_lan.Base.{
  ℕ, ◌≤◌, ◌≡◌, ◌≢◌, refl, Bool, true, false, ◌||◌, inl, inr, [], ◌∷◌, some, arith, ◌==◌, any, find?,
  count, any-count, count-modify_first_same, count-modify_first_drop, count-modify_first_le,
  count-modify_all_le, length, length-modify_first, Bool-cases, find?_written_at,
}
use shadow_lan.Alias.{
  Row, Table, of_sock, is_free, rewrite, occupy, add, mark_bindv, is_bindv, clear, drop,
}

-- No socket but the free rows' 0 has two rows.
unfoldable pub IsTable : Table → Type 0
IsTable t = (s : ℕ) → s ≢ 0 → count (of_sock s) t ≤ 1

module _ (t : Table) (sock v r proto : ℕ) where
  count-add :
      (s : ℕ) → s ≢ 0 → count (of_sock s) t ≤ 1 → count (of_sock s) (add t sock v r proto) ≤ 1
  unfolding add
  count-add s named h = elim (Bool-cases (any (of_sock sock) t)) [
    | inl e ↦ rw e (
        rw (count-modify_first_same (of_sock sock) (of_sock s) (rewrite v r proto) (λ y k. refl) t)
          h)
    | inr e ↦ rw e (elim (Bool-cases (sock == s)) [
      | inl same ↦ ground (
        arith,
        any-count (of_sock sock) t e,
        count-modify_first_le is_free (of_sock s) (occupy sock v r proto) t,
      )
      | inr apart ↦ ground (
        arith,
        count-modify_first_drop is_free (of_sock s) (occupy sock v r proto) (λ y k. apart) t,
      )
    ])
  ]

  -- dt_alias_add keeps one row for each socket, and the size of the table.
  pub add-IsTable :
      IsTable t → IsTable (add t sock v r proto) × (length (add t sock v r proto) ≡ length t)
  unfolding IsTable
  add-IsTable valid = (λ s named. count-add s named (valid s named), unfold add in size)
    where
      size : length (add t sock v r proto) ≡ length t
      size =
          unfold add in
          ground (
            arith,
            length-modify_first (of_sock sock) (rewrite v r proto) t,
            length-modify_first is_free (occupy sock v r proto) t,
          )

-- So do dt_alias_bindv and dt_alias_drop.
pub mark_bindv-IsTable : (t : Table) (sock : ℕ) → IsTable t → IsTable (mark_bindv t sock)
unfolding IsTable mark_bindv
mark_bindv-IsTable t sock valid s named =
    rw
      (count-modify_first_same (of_sock sock) (of_sock s) (λ r. record r { bindv = true })
        (λ y k. refl) t)
      (valid s named)

pub drop-IsTable : (t : Table) (sock : ℕ) → IsTable t → IsTable (drop t sock)
unfolding IsTable drop
drop-IsTable t sock valid s named = omega (
  arith,
  valid s named,
  count-modify_all_le (of_sock sock) (of_sock s) clear (λ y e k. absurd (ground arith)) t,
)

abbrev next_free : ℕ → Row → Bool
next_free sock r = r.sock == 0 || r.sock == sock

freed_row :
    (t : Table) (sock : ℕ) (x : Row)
    → find? (next_free sock) t ≡ some x
    → x.sock ≡ sock
    → sock ≢ 0
    → (y : Row) × (find? is_free (drop (mark_bindv t sock) sock) ≡ some y) × (y.bindv ≡ true)
unfolding drop mark_bindv
freed_row [] sock x h e n = absurd (cc)
freed_row (r ∷ t) sock x h e n = elim (Bool-cases (r.sock == sock)) [
  | inl hit ↦ (record r { sock = 0; vport = 0; real = 0; bindv = true }, ground arith, refl)
  | inr miss ↦
      let (y, found, marked) = freed_row t sock x (ground arith) e n in
      (y, ground (arith, found), marked)
]

-- A freed row keeps its mark: when a socket bound to the vnode is closed and its row is the next
-- that dt_alias_add takes, the new socket counts as bound to the vnode, though it never was.
pub is_bindv-add_stale :
    (t : Table) (old new v r proto : ℕ) (x : Row)
    → find? (next_free old) t ≡ some x
    → x.sock ≡ old
    → old ≢ 0
    → new ≢ 0
    → any (of_sock new) (drop (mark_bindv t old) old) ≡ false
    → is_bindv (add (drop (mark_bindv t old) old) new v r proto) new ≡ true
unfolding is_bindv
is_bindv-add_stale t old new v r proto x h e n n' absent =
    let (y, found, marked) = freed_row t old x h e n in rw (written y found, is_bindv) marked
  where
    written :
        (y : Row)
        → find? is_free (drop (mark_bindv t old) old) ≡ some y
        → find? (of_sock new) (add (drop (mark_bindv t old) old) new v r proto)
          ≡ some (occupy new v r proto y)
    written y found =
        unfold add in
        rw absent (
          find?_written_at is_free (of_sock new) (occupy new v r proto)
            (drop (mark_bindv t old) old) y absent found (ground arith))
