-- ===== src/Exceptions.antt =====
-- tobiko/common/_exception.py: walking and handling testtools.MultipleExceptions.
-- An exception stands with its type and traceback for its `exc_info`. Exceptions that compare equal
-- have the same key.
pub mod Walk
mod Examples
use tobiko.Prelude.{
  ℕ, zero, suc, ◌+◌, Bool, true, false, Option, none, some, List, [], ◌∷◌, ◌++◌, Result, ok, err,
  ◌==◌, if◌then◌else◌,
}

mutual
  pub data Exc : Type 0 where
    plain : ℕ → Exc
    multiple : ℕ → Args → Exc

  -- `args` of a MultipleExceptions
  pub data Args : Type 0 where
    nil : Args
    cons : Exc → Args → Args

abbrev pub key : Exc → ℕ
key (plain k) = k
key (multiple k args) = k

abbrev pub visited? : List ℕ → ℕ → Bool
visited? [] k = false
visited? (j ∷ js) k = if j == k then true else visited? js k

-- `visiting.extend(reversed(args))`, on a stack whose top is its head.
unfoldable pub extend : Args → List Exc → List Exc
extend nil visiting = visiting
extend (cons e args) visiting = e ∷ extend args visiting

-- The `while visiting` loop, on fuel: `none` means that it ran out.
unfoldable pub visit : ℕ → List Exc → List ℕ → List Exc → Option (List Exc)
unfolding extend
visit fuel [] visited result = some result
visit zero (e ∷ visiting) visited result = none
visit (suc fuel) (e ∷ visiting) visited result = elim (visited? visited (key e)) [
  | true ↦ visit fuel visiting visited result
  | false ↦ elim e [
    | plain k ↦ visit fuel visiting (k ∷ visited) (result ++ plain k ∷ [])
    | multiple k args ↦ visit fuel (extend args visiting) (k ∷ visited) result
  ]
]

mutual
  pub size : Exc → ℕ
  size (plain k) = 1
  size (multiple k args) = 1 + size_args args

  pub size_args : Args → ℕ
  size_args nil = 0
  size_args (cons e args) = size e + size_args args

-- Each exception of the tree is pushed once.
unfoldable pub list_exc_infos : Exc → Option (List Exc)
unfolding visit size
list_exc_infos e = visit (size e) (e ∷ []) [] []

-- `handle_multiple_exceptions`: what leaves the block, and the exceptions that went to the handler.
unfoldable pub after_walk : Option (List Exc) → Option (Result Exc (Unit {0}) × List Exc)
after_walk none = none
after_walk (some []) = some (ok tt, [])
after_walk (some (e ∷ es)) = some (err e, es)

unfoldable pub handle_multiple_exceptions :
    Result Exc (Unit {0}) → Option (Result Exc (Unit {0}) × List Exc)
unfolding list_exc_infos after_walk
handle_multiple_exceptions (ok x) = some (ok x, [])
handle_multiple_exceptions (err (plain k)) = some (err (plain k), [])
handle_multiple_exceptions (err (multiple k args)) = after_walk (list_exc_infos (multiple k args))
