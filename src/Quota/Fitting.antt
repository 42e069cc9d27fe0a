-- ===== src/Quota/Fitting.antt =====
-- What the limits are when `ensure_nova_quota_limits` or `ensure_neutron_quota_limits` returns.
use Prim.Native.Nat.{◌/◌}
use tobiko.Prelude.{
  ℕ, ◌≤◌, ◌<◌, ◌≡◌, refl, String, Bool, true, false, Option, none, some, List, [], ◌∷◌, Result, ok,
  err, ◌>>=◌, All, arith, inl, inr, Bool-cases, Option-cases,
}
use tobiko.Time.{ℤ, pos, negsuc, Seconds}
use tobiko.Retry.{RetryAttempt, RetryError, raised, count_limit, time_limit, is_last}
use tobiko.Retry.Rules.{Partial, After, for_attempts_rule, limited}
use tobiko.Quota.{
  Quota, QuotaSet, Increase, QuotaError, service, broken_loop, nova_over, neutron_over,
  required_limit, QuotaService, judge, quota_increase, entry, add, get_quota_limits_increase,
}
use tobiko.Quota.Ensuring.{
  ended, updated, increased, found, ensure_body, ensure_limits, and_then,
  ensure_neutron_quota_limits, ensure_nova_quota_limits,
}

-- A number within a limit: `R` is an order, and a negative limit is none.
abbrev pub IsWithin : (ℕ → ℕ → Type 0) → ℕ → ℤ → Type 0
IsWithin R required (negsuc n) = Unit
IsWithin R required (pos limit) = R required limit

-- What is in use, what is reserved and what is needed, together.
abbrev pub Fits : (ℕ → ℕ → Type 0) → (String → ℕ) → String → Option Quota → Type 0
Fits R needed name none = ⊥
Fits R needed name (some quota) = IsWithin R (required_limit quota (needed name)) quota.limit

module _ (over : ℕ → ℕ → Bool) (R : ℕ → ℕ → Type 0)
    (order : (required limit : ℕ) → over required limit ≡ false → R required limit)
    (needed : String → ℕ) where
  judge-IsWithin :
      (extra : ℕ) (limit : ℤ) (required : ℕ)
      → judge over needed extra limit required ≡ none
      → IsWithin R required limit
  judge-IsWithin extra (negsuc n) required h = tt
  judge-IsWithin extra (pos limit) required h = order required limit (ground arith)

  entry-Fits :
      {E : Type 0} (extra : ℕ) (o : Option Quota) (name : String)
      (rest : Result (QuotaError E) Increase)
      → (do
        limits ← entry over needed extra o name
        xs ← rest
        ok (add over needed extra name limits xs))
        ≡ ok []
      → Fits R needed name o × (rest ≡ ok [])
  entry-Fits extra none name rest h = absurd (ground arith)
  entry-Fits extra (some quota) name (err e) h = absurd (ground arith)
  entry-Fits extra (some quota) name (ok xs) h =
      elim (Option-cases (quota_increase over needed extra quota name)) [
        | inl e ↦ (judge-IsWithin extra quota.limit _ e, ground (arith, e))
        | inr (l, e) ↦ absurd (ground (arith, e))
      ]

  get_quota_limits_increase-Fits :
      {E : Type 0} (extra : ℕ) (quotas : QuotaSet) (names : List String)
      → get_quota_limits_increase over needed extra {E = E} quotas names ≡ ok []
      → All (λ name. Fits R needed name (quotas name)) names
  unfolding get_quota_limits_increase
  get_quota_limits_increase-Fits extra quotas [] h = tt
  get_quota_limits_increase-Fits {E = E} extra quotas (name ∷ names) h =
      let (fits, rest) =
        entry-Fits extra (quotas name) name
          (get_quota_limits_increase over needed extra {E = E} quotas names) h in
      (fits, get_quota_limits_increase-Fits extra quotas names rest)

abbrev pub is_broken : {E : Type 0} → QuotaError E → Bool
is_broken broken_loop = true
is_broken _ = false

module _ {E : Type 0} (over : ℕ → ℕ → Bool) (needed : String → ℕ) (extra : ℕ) where
  entry-err :
      (o : Option Quota) (name : String) (rest : Result (QuotaError E) Increase) (e : QuotaError E)
      → ((x : QuotaError E) → rest ≡ err x → is_broken x ≡ false)
      → (do
        limits ← entry over needed extra o name
        xs ← rest
        ok (add over needed extra name limits xs))
        ≡ err e
      → is_broken e ≡ false
  entry-err none name rest e k h = ground (arith, h)
  entry-err (some quota) name (err x) e k h = ground (arith, h, k x refl)
  entry-err (some quota) name (ok xs) e k h = absurd (ground (arith, h))

  get_quota_limits_increase-err :
      (quotas : QuotaSet) (names : List String) (e : QuotaError E)
      → get_quota_limits_increase over needed extra quotas names ≡ err e
      → is_broken e ≡ false
  unfolding get_quota_limits_increase
  get_quota_limits_increase-err quotas [] e h = absurd (ground arith)
  get_quota_limits_increase-err quotas (name ∷ names) e h =
      entry-err (quotas name) name (get_quota_limits_increase over needed extra quotas names) e
        (λ x g. get_quota_limits_increase-err quotas names x g) h

module _ {W E : Type 0} (quotas : QuotaService W E) (needed : String → ℕ) where
  -- The last call read a quota set where all that is required fits.
  abbrev pub Ensured :
      (ℕ → ℕ → Type 0) → Option String → List String → Result (QuotaError E) (Unit {0}) × W → Type 0
  Ensured R user names (ok _, w) =
      (w0 : W) × (quota_set : QuotaSet) × (quotas.get_quota_set user w0 ≡ (ok quota_set, w))
      × All (λ name. Fits R needed name (quota_set name)) names
  Ensured R user names (err e, w) = is_broken e ≡ false

  module _ (over : ℕ → ℕ → Bool) (R : ℕ → ℕ → Type 0)
      (order : (required limit : ℕ) → over required limit ≡ false → R required limit)
      (user : Option String) (names : List String) where
    abbrev Ends : Result (RetryError (QuotaError E)) (Unit {0}) → W → Type 0
    Ends (ok _) w = Ensured R user names (ok tt, w)
    Ends (err (raised e)) w = is_broken e ≡ false
    Ends (err (count_limit a)) w = ⊥
    Ends (err (time_limit a)) w = ⊥

    abbrev Always : W → Type 0
    Always w = Unit

    updated-After :
        (a : RetryAttempt) (r : Result E (Unit {0}) × W)
        → is_last {E = QuotaError E} none a ≡ false
        → After Always Ends a (updated quotas needed over user names a r)
    unfolding updated
    updated-After a (ok _, w) l = (tt, λ x lim. absurd (ground (arith, limited a x none lim)))
    updated-After a (err e, w) l = elim (Bool-cases (is_last (some (service e)) a)) [
      | inl i ↦ rw i refl
      | inr i ↦ rw i (tt, λ x lim. absurd (ground (arith, limited a x none lim)))
    ]

    increased-After :
        (a : RetryAttempt) (quota_set : QuotaSet) (extra : ℕ) (r : Result (QuotaError E) Increase)
        (w w0 : W)
        → get_quota_limits_increase over needed extra {E = E} quota_set names ≡ r
        → quotas.get_quota_set user w0 ≡ (ok quota_set, w)
        → After Always Ends a (increased quotas needed over user names a r w)
    unfolding increased
    increased-After a quota_set extra (err e) w w0 h g =
        get_quota_limits_increase-err over needed extra quota_set names e h
    increased-After a quota_set extra (ok []) w w0 h g = (
      w0,
      quota_set,
      g,
      get_quota_limits_increase-Fits over R order needed extra quota_set names h,
    )
    increased-After a quota_set extra (ok (x ∷ xs)) w w0 h g =
        elim (Bool-cases (is_last {E = QuotaError E} none a)) [
          | inl i ↦ rw i refl
          | inr i ↦ rw i (updated-After a _ i)
        ]

    found-After :
        (a : RetryAttempt) (r : Result E QuotaSet × W) (w0 : W)
        → quotas.get_quota_set user w0 ≡ r
        → After Always Ends a (found quotas needed over user names a r)
    unfolding found
    found-After a (err e, w) w0 g = refl
    found-After a (ok quota_set, w) w0 g = increased-After a quota_set (10 / a.number) _ w w0 refl g

    ended-Ensured :
        (w : W) (o : Option (Result (RetryError (QuotaError E)) (Unit {0}) × W))
        → Partial Ends o
        → Ensured R user names (ended w o)
    ended-Ensured w none h = refl
    ended-Ensured w (some (ok _, w')) h = h
    ended-Ensured w (some (err (raised e), w')) h = h
    ended-Ensured w (some (err (count_limit a), w')) h = absurd h
    ended-Ensured w (some (err (time_limit a), w')) h = absurd h

    ensure_limits-Ensured :
        (second fuel : ℕ) (timeout interval : Seconds) (w : W)
        → Ensured R user names
            (ensure_limits quotas needed over user names second fuel timeout interval w)
    unfolding ensure_limits ensure_body
    ensure_limits-Ensured second fuel timeout interval w = ended-Ensured w _ (
        for_attempts_rule quotas.clock _ (ensure_body quotas needed over user names) Always Ends
          (λ a w' _ _. found-After a _ w' refl) (λ a w' _. tt) fuel w tt)

  -- A name at least is required, or nothing was asked.
  abbrev pub Checked :
      (ℕ → ℕ → Type 0) → Option String → List String → Result (QuotaError E) (Unit {0}) × W → Type 0
  Checked R user [] r = Unit
  Checked R user (name ∷ names) r = Ensured R user (name ∷ names) r

  module _ (second fuel : ℕ) (timeout interval : Seconds) where
    -- `ensure_neutron_quota_limits` returns only when the quota set that it read last has a quota for
    -- each required name, and what is used, reserved and needed of it is no more than its limit, if
    -- it has one. An error it raises is never that of a broken loop.
    pub ensure_neutron_quota_limits-Checked :
        (names : List String) (w : W)
        → Checked
            (λ required limit. required ≤ limit)
            none
            names
            (ensure_neutron_quota_limits quotas needed second fuel timeout interval names w)
    unfolding ensure_neutron_quota_limits
    ensure_neutron_quota_limits-Checked [] w = tt
    ensure_neutron_quota_limits-Checked (name ∷ names) w =
        ensure_limits-Ensured neutron_over (λ required limit. required ≤ limit)
          (λ required limit h. ground arith) none (name ∷ names) second fuel timeout interval w

    nova :
        (user : Option String) (names : List String) (timeout' interval' : Seconds) (w : W)
        → Ensured
            (λ required limit. required < limit)
            user
            names
            (ensure_limits quotas needed nova_over user names second fuel timeout' interval' w)
    nova user names timeout' interval' w =
        ensure_limits-Ensured nova_over (λ required limit. required < limit)
          (λ required limit h. ground arith) user names second fuel timeout' interval' w

    and_then-Ensured :
        (user : Option String) (names : List String) (r : Result (QuotaError E) (Unit {0}) × W)
        → Ensured (λ required limit. required < limit) none names r
        → Ensured
            (λ required limit. required < limit)
            user
            names
            (and_then quotas needed second fuel
              (ensure_limits quotas needed nova_over user names second fuel timeout interval)
              r)
    and_then-Ensured user names (ok _, w) h = nova user names timeout interval w
    and_then-Ensured user names (err e, w) h = h

    -- `ensure_nova_quota_limits` returns only when the quota set that it read last, for the user if
    -- one is given, has a quota for each required name, and what is in use, reserved and needed of
    -- it is below its limit, if it has one. An error it raises is never that of a broken loop.
    pub ensure_nova_quota_limits-Checked :
        (user : Option String) (names : List String) (w : W)
        → Checked
            (λ required limit. required < limit)
            user
            names
            (ensure_nova_quota_limits quotas needed second fuel user timeout interval names w)
    unfolding ensure_nova_quota_limits
    ensure_nova_quota_limits-Checked user [] w = tt
    ensure_nova_quota_limits-Checked none (name ∷ names) w =
        nova none (name ∷ names) timeout interval w
    ensure_nova_quota_limits-Checked (some user) (name ∷ names) w =
        and_then-Ensured (some user) (name ∷ names) _ (nova none (name ∷ names) none none w)
