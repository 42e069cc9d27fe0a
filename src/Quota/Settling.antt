-- ===== src/Quota/Settling.antt =====
-- Limits that were raised as they were computed are not raised again.

use tobiko.Prelude.{
  ℕ, ◌+◌, ◌≡◌, ◌≢◌, ◌∙◌, refl, ap, String, Bool, true, false, Option, none, some, List, [], ◌∷◌,
  Result, ok, ◌>>=◌, All, arith, str_eq, eq_iff, if◌then◌else◌,
}
use tobiko.Prelude.Dict.{lookup}
use tobiko.Time.{pos}
use tobiko.Quota.{
  Quota, QuotaSet, Increase, QuotaError, required_limit, quota_increase, entry, add,
  get_quota_limits_increase, expected_limits,
}

-- The quota with the limit that an update gives for it.
abbrev pub with_limit : Option ℕ → Option Quota → Option Quota
with_limit none o = o
with_limit (some limit) none = none
with_limit (some limit) (some quota) = some (record quota { limit = pos limit })

abbrev is_member : String → List String → Bool
is_member name [] = false
is_member name (n ∷ ns) = if str_eq n name then true else is_member name ns

abbrev second_of : Option (ℕ × ℕ) → Option ℕ
second_of none = none
second_of (some limits) = some limits.1

-- A limit that `over` accepts with room to spare.
abbrev pub Accepts : (ℕ → ℕ → Bool) → ℕ → Type 0
Accepts over extra = (required : ℕ) → over required (required + extra) ≡ false

module _ (over : ℕ → ℕ → Bool) (needed : String → ℕ) where
  -- The increases without the errors.
  raise_of : ℕ → Option Quota → String → Option (ℕ × ℕ)
  raise_of extra none name = none
  raise_of extra (some quota) name = quota_increase over needed extra quota name

  pub raises_of : ℕ → QuotaSet → List String → Increase
  raises_of extra quotas [] = []
  raises_of extra quotas (name ∷ names) =
      add over needed extra name (raise_of extra (quotas name) name) (raises_of extra quotas names)

  entry_step :
      {E : Type 0} (extra : ℕ) (o : Option Quota) (name : String)
      (rest : Result (QuotaError E) Increase)
      → (ys : Increase) → o ≢ none
      → rest ≡ ok ys
      → (do
        limits ← entry over needed extra o name
        xs ← rest
        ok (add over needed extra name limits xs))
        ≡ ok (add over needed extra name (raise_of extra o name) ys)
  unfolding raise_of
  entry_step extra none name rest ys h e = absurd (h refl)
  entry_step extra (some quota) name rest ys h e = rw e refl

  -- Where the set has all the names, no error is raised.
  pub get_quota_limits_increase-raises_of :
      {E : Type 0} (extra : ℕ) (quotas : QuotaSet) (names : List String)
      → All (λ name. quotas name ≢ none) names
      → get_quota_limits_increase over needed extra {E = E} quotas names
        ≡ ok (raises_of extra quotas names)
  unfolding get_quota_limits_increase raises_of
  get_quota_limits_increase-raises_of extra quotas [] h = refl
  get_quota_limits_increase-raises_of extra quotas (name ∷ names) h =
      entry_step extra (quotas name) name _ _ h.0
        (get_quota_limits_increase-raises_of extra quotas names h.1)

  lookup-add :
      (extra : ℕ) (name n : String) (o : Option (ℕ × ℕ)) (rest : Increase)
      → lookup name (expected_limits (add over needed extra n o rest)) ≡ (
          if str_eq n name
          then elim o [ none ↦ lookup name (expected_limits rest) | some l ↦ some l.1 ]
          else lookup name (expected_limits rest))
  unfolding lookup
  lookup-add extra name n none rest = ground arith
  lookup-add extra name n (some l) rest = ground arith

  combine :
      (b m : Bool) (o o' : Option (ℕ × ℕ)) (tail : Option ℕ)
      → tail ≡ (if m then second_of o' else none)
      → (b ≡ true → o ≡ o')
      → (if b then elim o [ none ↦ tail | some l ↦ some l.1 ] else tail)
        ≡ (if (if b then true else m) then second_of o' else none)
  combine true m none o' tail h k = ground (arith, h, k refl)
  combine true m (some l) o' tail h k = ground (arith, h, k refl)
  combine false m o o' tail h k = h

  lookup-raises_of :
      (extra : ℕ) (quotas : QuotaSet) (names : List String) (name : String)
      → lookup name (expected_limits (raises_of extra quotas names))
        ≡ (if is_member name names then second_of (raise_of extra (quotas name) name) else none)
  unfolding lookup raises_of
  lookup-raises_of extra quotas [] name = refl
  lookup-raises_of extra quotas (n ∷ names) name =
      lookup-add extra name n (raise_of extra (quotas n) n) (raises_of extra quotas names)
      ∙ combine (str_eq n name) (is_member name names) (raise_of extra (quotas n) n)
          (raise_of extra (quotas name) name)
          (lookup name (expected_limits (raises_of extra quotas names)))
          (lookup-raises_of extra quotas names name)
          (λ e. ap (λ m. raise_of extra (quotas m) m) ((eq_iff n name).0 e))

  -- A quota whose limit was set is not raised again, and one that was not set is high enough.
  raise_of-with_limit :
      (extra extra' : ℕ) (o : Option Quota) (name : String)
      → Accepts over extra
      → raise_of extra' (with_limit (second_of (raise_of extra o name)) o) name ≡ none
  unfolding raise_of
  raise_of-with_limit extra extra' none name accepts = refl
  raise_of-with_limit extra extra' (some quota) name accepts =
      ground (arith, accepts (required_limit quota (needed name)))

  pub raises_of-settled :
      (extra extra' : ℕ) (before after : QuotaSet) (names ns : List String)
      → Accepts over extra
      → ((name : String)
          → after name
            ≡ with_limit
                (lookup name (expected_limits (raises_of extra before names)))
                (before name))
      → ((name : String) → is_member name ns ≡ true → is_member name names ≡ true)
      → raises_of extra' after ns ≡ []
  unfolding raises_of
  raises_of-settled extra extra' before after names [] accepts set sub = refl
  raises_of-settled extra extra' before after names (n ∷ ns) accepts set sub =
      let member : is_member n names ≡ true = sub n (ground (arith, (eq_iff n n).1 refl)) in
      let found : lookup n (expected_limits (raises_of extra before names))
          ≡ second_of (raise_of extra (before n) n) =
        lookup-raises_of extra before names n ∙ rw member refl in
      let high : raise_of extra' (after n) n ≡ none =
        ap (λ o. raise_of extra' o n) (set n ∙ ap (λ l. with_limit l (before n)) found)
        ∙ raise_of-with_limit extra extra' (before n) n accepts in
      rw high (
        raises_of-settled extra extra' before after names ns accepts set
          (λ name h. sub name (ground (arith, h))))
