-- ===== src/Tmux/Panes/History.antt =====
-- Any sequence of calls of the operations of lib/mcp/tmux/tmux-mcp/src/panes.rs that change the
-- manager.
use wrapix.Prelude.{
  ℕ, ◌+◌, ◌^◌, ◌<◌, ◌≡◌, ◌≢◌, refl, subst, Option, List, [], ◌∷◌, All, length, arith,
}
use wrapix.Prelude.Text.{Str}
use wrapix.Tmux.Panes.Map.{get}
use wrapix.Tmux.Panes.{
  PaneStatus, PaneManager, new_manager, id_of, create_pane, remove_pane, update_status,
}
use wrapix.Tmux.Panes.Ids.{
  Issued, IsValid, create_pane-fresh, remove_pane-IsValid, update-IsValid, Issued-later, small_mod,
  not-Issued_twice,
}

pub data Op : Type 0 where
  create : Str → Option Str → Op
  remove : Str → Op
  update : Str → PaneStatus → Op

abbrev given : Str → List Str → List Str
given id ids = id ∷ ids

-- The ids that the calls hand out, in order, and the last state.
unfoldable pub run : List Op → PaneManager → List Str × PaneManager
unfolding create_pane remove_pane update_status
run [] m = ([], m)
run (create command name ∷ ops) m =
    let (id, m') = create_pane command name m in let (ids, t) = run ops m' in (id ∷ ids, t)
run (remove k ∷ ops) m = run ops (remove_pane k m).1
run (update k status ∷ ops) m = run ops (update_status k status m).1

abbrev pub NoRepeat : List Str → Type 0
NoRepeat [] = Unit
NoRepeat (id ∷ ids) = All (λ j. j ≢ id) ids × NoRepeat ids

abbrev pub Sound : ℕ → List Str × PaneManager → Type 0
Sound bound (ids, m) = IsValid m × NoRepeat ids × All (λ id. ¬ Issued bound id) ids

create_id :
    (command : Str) (name : Option Str) (m : PaneManager)
    → (create_pane command name m).0 ≡ id_of m.next_id
unfolding create_pane
create_id command name m = refl

pub create-next_id :
    (command : Str) (name : Option Str) (m : PaneManager)
    → m.next_id + 1 < 2 ^ 64
    → (create_pane command name m).1.next_id ≡ m.next_id + 1
unfolding create_pane
create-next_id command name m small = small_mod m.next_id small

pub update-next_id :
    (k : Str) (status : PaneStatus) (m : PaneManager)
    → (update_status k status m).1.next_id ≡ m.next_id
unfolding update_status
update-next_id k status m = ground arith

unissued :
    (n : ℕ) (ids : List Str) → All (λ id. ¬ Issued (n + 1) id) ids → All (λ j. j ≢ id_of n) ids
unissued n [] h = tt
unissued n (j ∷ ids) (new, h) = (λ e. new (n, omega arith, e), unissued n ids h)

earlier :
    (a b : ℕ) (ids : List Str)
    → a < b
    → All (λ id. ¬ Issued b id) ids
    → All (λ id. ¬ Issued a id) ids
earlier a b [] lt h = tt
earlier a b (j ∷ ids) lt (new, h) =
    (λ i. new (Issued-later a b j (omega arith) i), earlier a b ids lt h)

create-Sound :
    (n : ℕ) (rest : List Str × PaneManager)
    → Sound (n + 1) rest
    → Sound n (id_of n ∷ rest.0, rest.1)
create-Sound n (ids, t) (v, once, new) =
    (v, (unissued n ids new, once), (not-Issued_twice n, earlier n (n + 1) ids (omega arith) new))

-- From a valid state, while the counter does not reach the end of a u64: the state stays valid, and
-- no id is handed out twice, nor one that was handed out before, also where panes were removed.
pub run-Sound :
    (ops : List Op) (m : PaneManager)
    → IsValid m
    → m.next_id + length ops < 2 ^ 64
    → Sound m.next_id (run ops m)
unfolding run
run-Sound [] m v small = (v, tt, tt)
run-Sound (create command name ∷ ops) m v small =
    let (_, v', _) = create_pane-fresh command name m v (omega arith) in
    let e = create-next_id command name m (omega arith) in
    create-Sound m.next_id (run ops (create_pane command name m).1) (
      subst (λ b. Sound b (run ops (create_pane command name m).1)) e
        (run-Sound ops (create_pane command name m).1 v' (omega (arith, e))))
run-Sound (remove k ∷ ops) m v small =
    run-Sound ops (remove_pane k m).1 (remove_pane-IsValid k m v)
      (unfold remove_pane in omega arith)
run-Sound (update k status ∷ ops) m v small =
    subst (λ b. Sound b (run ops (update_status k status m).1)) (update-next_id k status m)
      (run-Sound ops (update_status k status m).1
        (unfold update_status in update-IsValid k status m (get k m.panes) v refl)
        (omega (arith, update-next_id k status m)))

pub new_manager-IsValid : IsValid new_manager
new_manager-IsValid = record {
  distinct = tt;
  issued = λ k p h. unfold get in cc h;
  keyed = λ k p h. unfold get in cc h;
}
