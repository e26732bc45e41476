-- ===== src/Run/Batch/Noting.antt =====
-- Actions that note their calls, for the git calls of loom/crates/loom-workflow/src/run/parallel.rs.
use wrapix.Prelude.{
  Option, some, ◌≡◌, refl, sym, ap, ◌∙◌, List, [], ◌∷◌, ◌++◌, append_assoc, append-nil,
}
use wrapix.Prelude.Exec.{Result, ok, err, continue}

module _ {S E C : Type 0} where
  -- What an action that notes its calls gives: a result, and calls behind those that were noted.
  abbrev pub Noting :
      {B : Type 0}
      → (Result E B → List C → Type 0)
      → List C
      → Option (Result E B × (S × List C))
      → Type 0
  Noting {B = B} P log x =
      (r : Result E B) × (t : S) × (calls : List C) × (x ≡ some (r, (t, log ++ calls))) × P r calls

  pub pure-Noting :
      {B : Type 0} (P : Result E B → List C → Type 0) (b : B) (s : S) (log : List C)
      → P (ok b) []
      → Noting P log (some (ok b, (s, log)))
  pure-Noting P b s log p =
      (ok b, s, [], ap (λ (l : List C). some (ok b, (s, l))) (sym (append-nil log)), p)

  pub continue-Noting :
      {A B : Type 0} (Q : Result E A → List C → Type 0) (P : Result E B → List C → Type 0)
      (log : List C) (x : Option (Result E A × (S × List C)))
      (k : A → S × List C → Option (Result E B × (S × List C)))
      → Noting Q log x
      → ((e : E) (calls : List C) → Q (err e) calls → P (err e) calls)
      → ((a : A) (s : S) (calls : List C)
          → Q (ok a) calls
          → Noting (λ r more. P r (calls ++ more)) (log ++ calls) (k a (s, log ++ calls)))
      → Noting P log (continue x k)
  continue-Noting Q P log x k (err e, t, calls, eq, q) stop go =
      (err e, t, calls, ap (λ o. continue o k) eq, stop e calls q)
  continue-Noting Q P log x k (ok a, t, calls, eq, q) stop go =
      let (r, u, more, eq', p) = go a t calls q in
      (
        r,
        u,
        calls ++ more,
        ap (λ o. continue o k) eq
            ∙ eq'
            ∙ ap (λ (l : List C). some (r, (u, l))) (append_assoc log calls more),
        p,
      )

  -- One call of git, noted with its answer, and what follows it.
  pub call-Noting :
      {A B : Type 0} (P : Result E B → List C → Type 0) (log : List C) (call : Result E A → C)
      (p : Result E A × S) (k : A → S × List C → Option (Result E B × (S × List C)))
      → ((e : E) → P (err e) (call (err e) ∷ []))
      → ((a : A) (s : S)
          → Noting
              (λ r more. P r (call (ok a) ∷ more))
              (log ++ call (ok a) ∷ [])
              (k a (s, log ++ call (ok a) ∷ [])))
      → Noting P log (continue (some (p.0, (p.1, log ++ call p.0 ∷ []))) k)
  call-Noting P log call (err e, s) k stop go = (err e, s, call (err e) ∷ [], refl, stop e)
  call-Noting P log call (ok a, s) k stop go =
      let (r, t, more, eq, p) = go a s in
      (
        r,
        t,
        call (ok a) ∷ more,
        eq ∙ ap (λ (l : List C). some (r, (t, l))) (append_assoc log (call (ok a) ∷ []) more),
        p,
      )
