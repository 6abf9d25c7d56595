-- ===== src/Migrations/Execution.antt =====
-- Runs of statements in which none fails (master/db.go, the loop of runMigrations).
use game_server_manager.Base.{
  ℕ, suc, ◌≡◌, refl, ap, ◌∙◌, Bool, true, false, some, List, [], ◌∷◌, ◌++◌,
}
use game_server_manager.Migrations.{Statement, Store, execute, attempt, go_on, run_statements}

-- The statements lead from one store to another, none of them failing.
pub data Executes : List Statement → Store → Store → Type 0 where
  stops : (s : Store) → Executes [] s s
  then_executes :
      (st : Statement) (sts : List Statement) (s after t : Store)
      → execute st s ≡ some after
      → Executes sts after t
      → Executes (st ∷ sts) s t

pub Executes-append :
    (xs ys : List Statement) (s t u : Store)
    → Executes xs s t
    → Executes ys t u
    → Executes (xs ++ ys) s u
Executes-append [] ys s _ u (stops _) k = k
Executes-append (x ∷ xs) ys s t u (then_executes _ _ _ after _ e h) k =
    then_executes x (xs ++ ys) s after u e (Executes-append xs ys after t u h k)

pub Executes-runs :
    (fault : ℕ → Bool) (i : ℕ) (sts : List Statement) (s t : Store)
    → ((j : ℕ) → fault j ≡ false)
    → Executes sts s t
    → run_statements fault i sts s ≡ (t, true)
unfolding run_statements
Executes-runs fault i [] s _ ok (stops _) = refl
Executes-runs fault i (st ∷ sts) s t ok (then_executes _ _ _ after _ e h) =
    ap (λ (b : Bool). go_on s (attempt b st s) (run_statements fault (suc i) sts)) (ok i)
    ∙ ap (λ o. go_on s o (run_statements fault (suc i) sts)) e
    ∙ Executes-runs fault (suc i) sts after t ok h
