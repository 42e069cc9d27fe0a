-- ===== src/Table/Calls.antt =====
-- A chain of two calls, by the outcome of the first.
use tobiko.Prelude.{◌≡◌, refl, arith, Result, ok, err}
use tobiko.Table.{Error, TableData, Call, ◌>>◌}

module _ {V A B : Type 0} (m : Call V A) (k : Call V B) (t : TableData V) where
  pub then-ok : (a : A) → (m t).0 ≡ ok a → (m >> k) t ≡ k (m t).1
  then-ok a e = go (m t).0 e
    where
      go :
          (r : Result Error A)
          → r ≡ ok a
          → (elim r as (λ _. Result Error B × TableData V) [
            | ok a ↦ k (m t).1
            | err e ↦ (err e, (m t).1)
          ])
            ≡ k (m t).1
      go (ok b) e = refl
      go (err x) e = absurd cc

  pub then-err : (x : Error) → (m t).0 ≡ err x → (m >> k) t ≡ (err x, (m t).1)
  then-err x e = go (m t).0 e
    where
      go :
          (r : Result Error A)
          → r ≡ err x
          → (elim r as (λ _. Result Error B × TableData V) [
            | ok a ↦ k (m t).1
            | err e ↦ (err e, (m t).1)
          ])
            ≡ (err x, (m t).1)
      go (ok b) e = absurd cc
      go (err y) e = ground arith
