-- ===== src/Exceptions/Examples.antt =====
-- A tree of exceptions with one exception in it twice.
use tobiko.Prelude.{◌≡◌, refl, some, List, [], ◌∷◌, Result, err}
use tobiko.Exceptions.{
  Exc, plain, multiple, Args, nil, cons, list_exc_infos, handle_multiple_exceptions,
}
use tobiko.Exceptions.Walk.{
  walk, list_exc_infos_lem, IsSingle, IsAccounted, handle_multiple_exceptions_lem,
}

abbrev args : Args
args = cons (multiple 1 (cons (plain 5) (cons (plain 4) nil))) (cons (plain 5) (cons (plain 7) nil))

list_exc_infos_runs : list_exc_infos (multiple 0 args) ≡ some (plain 5 ∷ plain 4 ∷ plain 7 ∷ [])
unfolding list_exc_infos
list_exc_infos_runs = refl

handle_runs :
    handle_multiple_exceptions (err (multiple 0 args))
    ≡ some (err (plain 5), plain 4 ∷ plain 7 ∷ [])
unfolding handle_multiple_exceptions
handle_runs = refl

list_exc_infos_lem_example :
    list_exc_infos (multiple 0 args) ≡ some (walk (multiple 0 args) ([], [])).1
list_exc_infos_lem_example = list_exc_infos_lem (multiple 0 args)

handle_multiple_exceptions_lem_example :
    (x : Result Exc (Unit {0})) × (handled : List Exc) × (handle_multiple_exceptions
        (err (multiple 0 args))
      ≡ some (x, handled))
    × IsSingle x
    × IsAccounted x handled (walk (multiple 0 args) ([], [])).1
handle_multiple_exceptions_lem_example = handle_multiple_exceptions_lem 0 args
