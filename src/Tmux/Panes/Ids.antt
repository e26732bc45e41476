-- ===== src/Tmux/Panes/Ids.antt =====
-- The ids of lib/mcp/tmux/tmux-mcp/src/panes.rs: an invariant of `PaneManager`, and that no id is
-- handed out twice.
use wrapix.Prelude.{
  ℕ, ◌+◌, ◌^◌, ◌≤◌, ◌<◌, ◌≡◌, refl, sym, subst, ◌∙◌, ◌%◌, Option, none, some, inl, inr, Bool-cases,
  if◌then◌else◌, arith,
}
use wrapix.Prelude.Text.{Str, str_eq, str_eq_iff}
use wrapix.Prelude.Decimal.{to_string-injective}
use wrapix.Tmux.Panes.Map.{
  get, insert, remove, get-insert, get-remove, Distinct, Distinct-insert, Distinct-remove,
}
use wrapix.Tmux.Panes.{
  update_status, PaneStatus, PaneState, new_pane, set_status, PaneManager, id_of, unwrap_or,
  create_pane, get_pane, remove_pane, update_found,
}

-- An id that was handed out before the counter came to `bound`.
abbrev pub Issued : ℕ → Str → Type 0
Issued bound id = (n : ℕ) × (n < bound) × (id ≡ id_of n)

pub record IsValid (m : PaneManager) : Type 0 where
  pub distinct : Distinct m.panes
  pub issued : (k : Str) (p : PaneState) → get k m.panes ≡ some p → Issued m.next_id k
  pub keyed : (k : Str) (p : PaneState) → get k m.panes ≡ some p → p.id ≡ k

id_of-injective : (m n : ℕ) → id_of m ≡ id_of n → m ≡ n
id_of-injective m n h = to_string-injective m n (cc h)

pub not-Issued_twice : (bound : ℕ) → ¬ Issued bound (id_of bound)
not-Issued_twice bound (n, lt, e) = omega (arith, id_of-injective bound n e)

fresh :
    (m : PaneManager)
    → IsValid m
    → (o : Option PaneState) → get (id_of m.next_id) m.panes ≡ o
    → get (id_of m.next_id) m.panes ≡ none
fresh m v none h = h
fresh m v (some p) h = absurd (not-Issued_twice m.next_id (v.issued _ p h))

pub Issued-later : (a b : ℕ) (id : Str) → a ≤ b → Issued a id → Issued b id
Issued-later a b id le (n, lt, e) = (n, omega arith, e)

-- Writing an entry whose pane carries its key keeps the invariant, if its key was handed out.
insert-IsValid :
    (m : PaneManager) (bound : ℕ) (k : Str) (pane : PaneState)
    → IsValid m
    → m.next_id ≤ bound
    → Issued bound k
    → pane.id ≡ k
    → IsValid (record { panes = insert k pane m.panes; next_id = bound })
insert-IsValid m bound k pane v le i e = record {
  distinct = Distinct-insert k pane m.panes v.distinct;
  issued = λ j p h. elim (Bool-cases (str_eq k j)) [
    | inl same ↦ subst (Issued bound) ((str_eq_iff k j).0 same) i
    | inr other ↦
        Issued-later m.next_id bound j le
          (v.issued j p (sym (get-insert k j pane m.panes ∙ rw other) ∙ h))
  ];
  keyed = λ j p h. elim (Bool-cases (str_eq k j)) [
    | inl same ↦ cc (e, (str_eq_iff k j).0 same, h, get-insert k j pane m.panes, same)
    | inr other ↦ v.keyed j p (sym (get-insert k j pane m.panes ∙ rw other) ∙ h)
  ];
}

pub small_mod : (n : ℕ) → n + 1 < 2 ^ 64 → (n + 1) % 2 ^ 64 ≡ n + 1
small_mod n h = omega arith

-- Panes that are created behind a valid state: the id is new, its pane is running under the given
-- name, or the id for lack of one, with the given command; no other pane changes, and the state
-- stays valid.
pub create_pane-fresh :
    (command : Str) (name : Option Str) (m : PaneManager)
    → IsValid m
    → m.next_id + 1 < 2 ^ 64
    → let (id, m') = create_pane command name m in
      (get_pane m id ≡ none)
      × IsValid m'
      × ((j : Str)
          → get_pane m' j ≡ (
              if str_eq id j then some (new_pane id (unwrap_or name id) command) else get_pane m j))
unfolding create_pane get_pane
create_pane-fresh command name m v small = (
  fresh m v _ refl,
  rw (small_mod m.next_id small) (
      insert-IsValid m (m.next_id + 1) (id_of m.next_id) _ v (omega arith)
        (m.next_id, omega arith, refl) refl),
  λ j. get-insert (id_of m.next_id) j _ m.panes,
)

pub remove_pane-IsValid : (k : Str) (m : PaneManager) → IsValid m → IsValid (remove_pane k m).1
unfolding remove_pane
remove_pane-IsValid k m v = record {
  distinct = Distinct-remove k m.panes v.distinct;
  issued = λ j p h. v.issued j p (kept j p h);
  keyed = λ j p h. v.keyed j p (kept j p h);
}
  where
    kept : (j : Str) (p : PaneState) → get j (remove k m.panes) ≡ some p → get j m.panes ≡ some p
    kept j p h = ground (arith, get-remove k j m.panes)

pub update-IsValid :
    (k : Str) (status : PaneStatus) (m : PaneManager) (o : Option PaneState)
    → IsValid m
    → get k m.panes ≡ o
    → IsValid (update_found o k status m).1
update-IsValid k status m none v h = v
update-IsValid k status m (some p) v h =
    insert-IsValid m m.next_id k (set_status p status) v (omega arith) (v.issued k p h)
      (v.keyed k p h)

pub update_status-IsValid :
    (k : Str) (status : PaneStatus) (m : PaneManager)
    → IsValid m
    → IsValid (update_status k status m).1
unfolding update_status
update_status-IsValid k status m v = update-IsValid k status m (get k m.panes) v refl

pub get_pane-remove_pane :
    (k j : Str) (m : PaneManager)
    → get_pane (remove_pane k m).1 j ≡ (if str_eq k j then none else get_pane m j)
unfolding get_pane remove_pane
get_pane-remove_pane k j m = get-remove k j m.panes
