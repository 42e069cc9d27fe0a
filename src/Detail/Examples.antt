-- ===== src/Detail/Examples.antt =====
-- Details whose names clash. Where the program writes a number, this format writes as many dashes.
use Prim.Native.String.{◌++◌, count}
use text.Mathlib.TextLemmas.{append_cancel_left, length-append}
use tobiko.Prelude.{
  ℕ, zero, suc, ◌≡◌, refl, ap, sym, ◌∙◌, String, true, some, [], ◌∷◌, Result, ok, All, str_eq,
  eq_iff, arith,
}
use tobiko.Prelude.Dict.{Dict, lookup}
use tobiko.Detail.{gather_details}
use tobiko.Detail.Gathering.{IsGathered, gather_details_lem}

dashes : ℕ → String
dashes zero = ""
dashes (suc n) = "-" ++ dashes n

abbrev format : String → ℕ → String
format name n = name ++ dashes n

count-dashes : (n : ℕ) → count (dashes n) ≡ n
unfolding dashes
count-dashes zero = refl
count-dashes (suc n) = omega (arith, length-append "-" (dashes n), count-dashes n)

injective : (name : String) (m n : ℕ) → format name m ≡ format name n → m ≡ n
injective name m n e =
    sym (count-dashes m)
    ∙ ap count (append_cancel_left name (dashes m) (dashes n) e)
    ∙ count-dashes n

-- A content is its text, and its id is the text as well.
abbrev copy_content : String → ℕ → Result ℕ String × ℕ
copy_content c w = (ok c, suc w)

abbrev source : Dict String
source = ("log", "b") ∷ ("log", "a") ∷ []

abbrev target : Dict String
target = ("log", "a") ∷ []

copies :
    (c : String) (w : ℕ) → (c' : String) × ((copy_content c w).0 ≡ ok c') × (str_eq c c' ≡ true)
copies c w = (c, refl, (eq_iff c c).1 refl)

gather_details_lem_example :
    let (target', w) = gather_details str_eq format copy_content source (target, 0) in
    All (λ detail. IsGathered str_eq format copy_content detail.1 target') source
    × ((j : String) (d : String) → lookup j target ≡ some d → lookup j target' ≡ some d)
gather_details_lem_example =
    gather_details_lem str_eq format copy_content copies injective source (target, 0)
