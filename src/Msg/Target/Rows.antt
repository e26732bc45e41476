-- ===== src/Msg/Target/Rows.antt =====
-- The rows of the list in loom/crates/loom-workflow/src/msg/list.rs name their beads.
use wrapix.Prelude.{
  ℕ, zero, suc, ◌+◌, ◌-◌, ◌^◌, ◌<◌, ◌≤◌, ◌≡◌, ◌≢◌, subst, refl, ap, ap₂, sym, ◌∙◌, false, Option,
  none, some, List, [], ◌∷◌, length, get_elem?, if◌then◌else◌, Bool-cases, inl, inr, arith,
}
use wrapix.Prelude.Text.{Str, str_eq, str_eq_iff}
use wrapix.Prelude.Exec.{ok}
use wrapix.Core.Label.{SpecLabel}
use wrapix.Core.Bead.{Bead}
use wrapix.Msg.Target.{
  ClarifyRow, try_u32, rows_from, build_rows, Target, or_max, bead_at, find_id, by_index,
  resolve_target,
}

at_place : (m n : ℕ) → m ≡ n → or_max (try_u32 (suc m)) ≡ or_max (try_u32 (suc n))
at_place m n e = ap (λ (k : ℕ). or_max (try_u32 (suc k))) e

-- A row stands where its bead does.
rows_from-get_elem? :
    (f : Option SpecLabel) (i : ℕ) (beads : List Bead) (k : ℕ) (row : ClarifyRow)
    → get_elem? (rows_from f i beads) k ≡ some row
    → (b : Bead) × (get_elem? beads k ≡ some b)
      × (row.index ≡ or_max (try_u32 (suc (i + k))))
      × (row.bead_id ≡ b.id)
      × (k < length beads)
unfolding rows_from
rows_from-get_elem? f i [] k row h = absurd (cc h)
rows_from-get_elem? f i (b ∷ beads) zero row h =
    (b, refl, ap index_in (sym h) ∙ at_place i (i + 0) (omega arith), ap id_in (sym h), omega arith)
  where
    index_in : Option ClarifyRow → ℕ
    index_in (some r) = r.index
    index_in none = 0

    id_in : Option ClarifyRow → Str
    id_in (some r) = r.bead_id
    id_in none = []
rows_from-get_elem? f i (b ∷ beads) (suc k) row h =
    let (c, at, index, id, small) = rows_from-get_elem? f (suc i) beads k row h in
    (c, at, index ∙ at_place (suc i + k) (i + suc k) (omega arith), id, omega arith)

try_u32-small : (n : ℕ) → n < 2 ^ 32 → try_u32 n ≡ some n
try_u32-small n small = ground arith

-- Before the place `i` of a list nothing has the id.
abbrev NoneBefore : Str → List Bead → ℕ → Type 0
NoneBefore id beads i = (m : ℕ) (b : Bead) → m < i → get_elem? beads m ≡ some b → b.id ≢ id

-- The search from the place `from` on ends at the first bead that has the id, by the place `last`.
abbrev FoundBy : ℕ → Str → List Bead → ℕ → Target → Type 0
FoundBy from id beads last t =
    (i : ℕ) × (a : Bead) × (t ≡ ok (id, some (suc (from + i))))
    × (i ≤ last)
    × (get_elem? beads i ≡ some a)
    × (a.id ≡ id)
    × NoneBefore id beads i

abbrev id_of : Option Bead → Str
id_of (some b) = b.id
id_of none = []

later_none :
    (a : Bead) (id : Str) (beads : List Bead) (i : ℕ)
    → a.id ≢ id
    → NoneBefore id beads i
    → NoneBefore id (a ∷ beads) (suc i)
later_none a id beads i ne h zero b lt at e = ne (ap id_of at ∙ e)
later_none a id beads i ne h (suc m) b lt at e = h m b (omega arith) at e

find_at :
    (a : Bead) (beads : List Bead) (id : Str) (from k : ℕ) (rest : Target)
    → suc from < 2 ^ 32
    → (str_eq a.id id ≡ false → (j : ℕ) × (suc j ≡ k) × FoundBy (suc from) id beads j rest)
    → FoundBy from id (a ∷ beads) k (if str_eq a.id id then ok (a.id, try_u32 (suc from)) else rest)
find_at a beads id from k rest small h = elim (Bool-cases (str_eq a.id id)) [
  | inl e ↦
      let same = (str_eq_iff a.id id).0 e in
      (
        0,
        a,
        rw (e, try_u32-small (suc from) small, same)
            (ap (λ (n : ℕ). ok (id, some (suc n))) (omega arith)),
        omega arith,
        refl,
        same,
        λ m b lt at. absurd (omega arith),
      )
  | inr e ↦
      let (j, step, (i, b, found, le, at, same, before)) = h e in
      (
        suc i,
        b,
        rw e (found ∙ ap (λ (n : ℕ). ok (id, some (suc n))) (omega arith)),
        omega arith,
        at,
        same,
        later_none a id beads i (λ q. cc (e, (str_eq_iff a.id id).1 q)) before,
      )
]

find_id-get_elem? :
    (from : ℕ) (beads : List Bead) (k : ℕ) (b : Bead)
    → get_elem? beads k ≡ some b
    → length beads + from < 2 ^ 32
    → FoundBy from b.id beads k (find_id b.id from beads)
unfolding find_id
find_id-get_elem? from [] k b h small = absurd (cc h)
find_id-get_elem? from (a ∷ beads) zero b h small =
    find_at a beads b.id from zero _ (omega arith)
      (λ e. absurd (cc (e, (str_eq_iff a.id b.id).1 (ap id_of h))))
find_id-get_elem? from (a ∷ beads) (suc k) b h small =
    find_at a beads b.id from (suc k) _ (omega arith)
      (λ e. (k, refl, find_id-get_elem? (suc from) beads k b h (omega arith)))

-- Where a bead stands, there is a row with its id.
get_elem?-rows_from :
    (f : Option SpecLabel) (i : ℕ) (beads : List Bead) (k : ℕ) (b : Bead)
    → get_elem? beads k ≡ some b
    → (row : ClarifyRow) × (get_elem? (rows_from f i beads) k ≡ some row) × (row.bead_id ≡ b.id)
unfolding rows_from
get_elem?-rows_from f i [] k b h = absurd (cc h)
get_elem?-rows_from f i (a ∷ beads) zero b h = (_, refl, ap id_of h)
get_elem?-rows_from f i (a ∷ beads) (suc k) b h = get_elem?-rows_from f (suc i) beads k b h

place_small : (k n : ℕ) → n < 2 ^ 32 → k < n → or_max (try_u32 (suc (0 + k))) ≡ suc k
place_small k n small le = ap or_max (try_u32-small (suc (0 + k)) (omega arith)) ∙ omega arith

by_index-get_elem? :
    (beads : List Bead) (k : ℕ) (b : Bead)
    → length beads < 2 ^ 32
    → k < length beads
    → get_elem? beads k ≡ some b
    → by_index beads (or_max (try_u32 (length beads))) (suc k) ≡ some (ok (b.id, some (suc k)))
by_index-get_elem? beads k b small le at =
    ap (λ (o : Option ℕ). by_index beads (or_max o) (suc k)) (try_u32-small (length beads) small)
    ∙ in_range (length beads) k le
    ∙ ap (λ (i : ℕ). bead_at (get_elem? beads i) (suc k)) (omega arith)
    ∙ ap (λ (o : Option Bead). bead_at o (suc k)) at
  where
    in_range :
        (n i : ℕ) → i < n → by_index beads n (suc i) ≡ bead_at (get_elem? beads (suc i - 1)) (suc i)
    in_range n i l = ground arith

-- The id is resolved to itself with the number of the first row that has it, which stands at the
-- place `k` or before it.
abbrev pub FirstWith : List Bead → Option SpecLabel → Str → ℕ → Type 0
FirstWith beads f id k =
    (i : ℕ) × (row : ClarifyRow) × (resolve_target beads none (some id)
      ≡ some (ok (id, some (suc i))))
    × (i ≤ k)
    × (get_elem? (build_rows beads f) i ≡ some row)
    × (row.bead_id ≡ id)
    × ((m : ℕ) (other : ClarifyRow)
        → m < i
        → get_elem? (build_rows beads f) m ≡ some other
        → other.bead_id ≢ id)

first_with :
    (beads : List Bead) (f : Option SpecLabel) (k : ℕ) (b : Bead)
    → length beads < 2 ^ 32
    → get_elem? beads k ≡ some b
    → FirstWith beads f b.id k
unfolding build_rows resolve_target
first_with beads f k b small at =
    let (i, a, found, le, here, same, before) = find_id-get_elem? 0 beads k b at (omega arith) in
    let (row, stands, id) = get_elem?-rows_from f 0 beads i a here in
    (
      i,
      row,
      ap some (found ∙ ap (λ (n : ℕ). ok (b.id, some (suc n))) (omega arith)),
      le,
      stands,
      id ∙ same,
      λ m other lt q e.
          let (c, at', index, id', lt') = rows_from-get_elem? f 0 beads m other q in
          before m c lt at' (sym id' ∙ e),
    )

-- Each row of the list of fewer than 2 ^ 32 beads names a bead: the rows are numbered from 1, a
-- row's number is resolved to its id, with the number, and its id to the id, with the number of the
-- first row that has it.
pub resolve_target-build_rows :
    (beads : List Bead) (f : Option SpecLabel) (k : ℕ) (row : ClarifyRow)
    → length beads < 2 ^ 32
    → get_elem? (build_rows beads f) k ≡ some row
    → (resolve_target beads (some row.index) none ≡ some (ok (row.bead_id, some row.index)))
      × (row.index ≡ suc k)
      × FirstWith beads f row.bead_id k
unfolding build_rows resolve_target
resolve_target-build_rows beads f k row small h =
    let (b, at, index, id, le) = rows_from-get_elem? f 0 beads k row h in
    let place = index ∙ place_small k (length beads) small le in
    (
      ap (λ (n : ℕ). by_index beads (or_max (try_u32 (length beads))) n) place
          ∙ by_index-get_elem? beads k b small le at
          ∙ ap₂ (λ (x : Str) (n : ℕ). some (ok (x, some n))) (sym id) (sym place),
      place,
      subst (λ (x : Str). FirstWith beads f x k) (sym id) (first_with beads f k b small at),
    )
