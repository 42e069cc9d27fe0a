-- ===== src/Detail.antt =====
-- tobiko/common/_detail.py: details that are gathered under names of their own.
-- `same` compares the ids of two contents, `format` is '{!s}-{!s}'.format, and `copy_content` is
-- copy_details_content, which reads the content.
pub mod Naming
pub mod Gathering
mod Examples
use tobiko.Prelude.{
  ℕ, zero, suc, String, Bool, true, false, Option, none, some, List, [], ◌∷◌, Result, ok, err,
  length, if◌then◌else◌,
}
use tobiko.Prelude.Dict.{Dict, lookup, insert}

module _ {C : Type 0} (same : C → C → Bool) (format : String → ℕ → String) where
  -- `while new_name in target_dict`, with the next number of `disambiguator`; none where the fuel
  -- runs out.
  unfoldable pub next_name : (fuel : ℕ) (name : String) → C → Dict C → ℕ → String → Option String
  next_name zero name c target n new_name = none
  next_name (suc fuel) name c target n new_name =
      let rest = next_name fuel name c target (suc n) (format name n) in
      elim (lookup new_name target) [
        | none ↦ some new_name
        | some d ↦ if same c d then some new_name else rest
      ]

  -- Two rounds more than there are details are enough.
  unfoldable pub get_unique_detail_name : String → C → Dict C → Option String
  unfolding next_name
  get_unique_detail_name name c target = next_name (suc (suc (length target))) name c target 1 name

  module _ {W E : Type 0} (copy_content : C → W → Result E C × W) where
    abbrev pub put : String → Result E C × W → Dict C → Dict C × W
    put new_name (ok c, w) target = (insert new_name c target, w)
    put new_name (err e, w) target = (target, w)

    -- `if new_name not in target_dict`; an exception is logged.
    abbrev pub put_if_absent : Option C → String → C → Dict C → W → Dict C × W
    put_if_absent (some d) new_name c target w = (target, w)
    put_if_absent none new_name c target w = put new_name (copy_content c w) target

    abbrev pub put_if_new : Option String → C → Dict C × W → Dict C × W
    put_if_new none c s = s
    put_if_new (some new_name) c (target, w) =
        put_if_absent (lookup new_name target) new_name c target w

    unfoldable pub gather_details : Dict C → Dict C × W → Dict C × W
    unfolding get_unique_detail_name
    gather_details [] s = s
    gather_details ((name, c) ∷ source) s =
        gather_details source (put_if_new (get_unique_detail_name name c s.0) c s)
