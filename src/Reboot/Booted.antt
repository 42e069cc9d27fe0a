-- ===== src/Reboot/Booted.antt =====
-- What wait_for_operation makes sure of: it returns with the host rebooted, or closes the connection.
use tobiko.Prelude.{
  ℕ, ◌-◌, ◌<◌, Bool, true, false, ◌≡◌, ◌≢◌, inl, inr, refl, ap, sym, ◌∙◌, subst, Option, none, some,
  Result, ok, err, ltb, ltb→lt, Bool-cases, if◌then◌else◌,
}
use tobiko.Time.{pos, Seconds, ToSecondsValue}
use tobiko.Retry.{
  RetryAttempt, RetryError, raised, count_limit, time_limit, check_limits, retry, or_else,
}
use tobiko.Retry.Loop.{for_attempts}
use tobiko.Retry.Rules.{
  Partial, After, for_attempts_rule, for_attempts-counted, pause_keeps, check_limits-raised,
}
use tobiko.Reboot.{
  RebootError, host, out_of_fuel, State, Host, with_world, loop_clock, closed, wait_options, ended,
  left_since, wait_limited, time_left, verdict_of, elapsed_since, or_limits, rebooted, compared,
  after_uptime, after_cleanup, wait_body, close_unless_rebooted, wait_for_operation,
}

pub wait_options-count :
    {W E : Type 0} (h : Host W E) (second : ℕ) (timeout : Seconds)
    → (wait_options h second timeout).count ≡ some (pos 60)
unfolding retry or_else
wait_options-count h second timeout = refl

module _ {W E : Type 0} (h : Host W E) where
  -- The last uptime was read, the clock after it, and the uptime is less than the time since the
  -- reboot was ordered.
  abbrev pub Restarted : State W → Type 0
  Restarted s =
      (w : W) × (start up_time : ℕ) × (s.start_time ≡ some start)
      × ((h.get_uptime w).0 ≡ ok up_time)
      × (s.world ≡ (h.clock.time (h.get_uptime w).1).1)
      × (up_time < (h.clock.time (h.get_uptime w).1).0 - start)

  abbrev Booted : Result (RetryError (RebootError E)) Unit → State W → Type 0
  Booted (ok _) s = (s.is_rebooted ≡ true) × Restarted s
  Booted (err x) s = (s.is_rebooted ≡ false) × (x ≢ raised out_of_fuel)

  abbrev Waiting : State W → Type 0
  Waiting s = s.is_rebooted ≡ false

  or_limits-After :
      (handled : Option (RebootError E)) (a : RetryAttempt) (s : State W)
      → Waiting s
      → handled ≢ some out_of_fuel
      → After Waiting Booted a (or_limits h handled a, s)
  or_limits-After handled a s p other = go (check_limits handled a) refl
    where
      go :
          (r : Result (RetryError (RebootError E)) Unit)
          → check_limits handled a ≡ r
          → After Waiting Booted a (verdict_of h r, s)
      go (ok _) e = (
        p,
        λ x l. (
          p,
          λ f.
              let e : none ≡ some out_of_fuel =
                check_limits-raised none a out_of_fuel (l ∙ ap err f) in
              absurd cc,
        ),
      )
      go (err x) e = (p, λ f. other (check_limits-raised handled a out_of_fuel (e ∙ ap err f)))

  compared-After :
      (a : RetryAttempt) (up elapsed : ℕ) (s : State W)
      → Waiting s
      → (up < elapsed → Restarted (rebooted h s))
      → After Waiting Booted a (compared h a up (some elapsed, s))
  unfolding compared
  compared-After a up elapsed s p shown = elim (Bool-cases (ltb up elapsed)) [
    | inr late ↦ rw late (or_limits-After none a s p (λ e. absurd cc))
    | inl less ↦ elim (Bool-cases (h.has_client s.world)) [
      | inr lost ↦ rw less (rw lost (p, λ e. absurd cc))
      | inl there ↦ rw less (rw there (refl, shown (ltb→lt up elapsed less)))
    ]
  ]

  since-After :
      (a : RetryAttempt) (up : ℕ) (w : W) (s : State W) (start : Option ℕ)
      → Waiting s
      → s.start_time ≡ start
      → (h.get_uptime w).0 ≡ ok up
      → s.world ≡ (h.get_uptime w).1
      → After Waiting Booted a (compared h a up (elapsed_since h start s))
  since-After a up w s none p e read there = unfold compared in (p, λ e. absurd cc)
  since-After a up w s (some start) p e read there =
      compared-After a up ((h.clock.time s.world).0 - start) _ p λ less. (
        w,
        start,
        up,
        e,
        read,
        ap (λ v. (h.clock.time v).1) there,
        subst (λ v. up < (h.clock.time v).0 - start) there less,
      )

  after_uptime-After :
      (a : RetryAttempt) (s : State W) (w : W)
      → Waiting s
      → After Waiting Booted a (after_uptime h a s (h.get_uptime w))
  unfolding after_uptime
  after_uptime-After a s w p = go (h.get_uptime w) refl
    where
      go : (r : Result E ℕ × W) → h.get_uptime w ≡ r → After Waiting Booted a (after_uptime h a s r)
      go (err e, w') eq = or_limits-After (some (host e)) a (with_world h s w') p (λ f. absurd cc)
      go (ok up, w') eq =
          since-After a up w (with_world h s w') s.start_time p refl (ap (λ o. o.0) eq)
            (sym (ap (λ o. o.1) eq))

  wait_body-After :
      (a : RetryAttempt) (s : State W) → Waiting s → After Waiting Booted a (wait_body h a s)
  unfolding wait_body after_cleanup
  wait_body-After a s p = go (h.cleanup s.world)
    where
      go : (r : Result E Unit × W) → After Waiting Booted a (after_cleanup h a s r)
      go (err e, w) = (p, λ e. absurd cc)
      go (ok _, w) = elim (Bool-cases (h.has_client w)) [
        | inl still ↦ rw still (p, λ e. absurd cc)
        | inr gone ↦ rw gone (after_uptime-After a (with_world h s w) w p)
      ]

  -- Either the host is rebooted, or the wait raised and the connection was closed last.
  abbrev pub IsWaited : Result (RebootError E) Unit × State W → Type 0
  IsWaited (ok _, s) = (s.is_rebooted ≡ true) × Restarted s
  IsWaited (err e, s) =
      (s.is_rebooted ≡ false) × (e ≢ out_of_fuel) × ((w : W) × (s.world ≡ h.close w))

  -- The outcome of the loop, before the `finally`.
  abbrev IsEnded : Result (RebootError E) Unit × State W → Type 0
  IsEnded (ok _, s) = (s.is_rebooted ≡ true) × Restarted s
  IsEnded (err e, s) = (s.is_rebooted ≡ false) × (e ≢ out_of_fuel)

  ended-IsEnded :
      (s : State W) (o : Option (Result (RetryError (RebootError E)) Unit × State W))
      → Partial Booted o
      → o ≢ none
      → IsEnded (ended h s o)
  ended-IsEnded s none q n = absurd (n refl)
  ended-IsEnded s (some (ok _, s')) q n = q
  ended-IsEnded s (some (err (raised e), s')) q n = (q.0, λ f. q.1 (ap raised f))
  ended-IsEnded s (some (err (count_limit a), s')) q n = (q.0, λ f. absurd cc)
  ended-IsEnded s (some (err (time_limit a), s')) q n = (q.0, λ f. absurd cc)

  if_true : {A : Type 0} {b : Bool} (x y : A) → b ≡ true → x ≡ (if b then x else y)
  if_true x y e = rw e refl

  if_false : {A : Type 0} {b : Bool} (x y : A) → b ≡ false → y ≡ (if b then x else y)
  if_false x y e = rw e refl

  close_unless_rebooted-IsWaited :
      (o : Result (RebootError E) Unit × State W) → IsEnded o → IsWaited (close_unless_rebooted h o)
  close_unless_rebooted-IsWaited (ok x, s) b =
      subst (λ s. IsWaited (ok x, s)) (if_true s (closed h s) b.0) b
  close_unless_rebooted-IsWaited (err e, s) b =
      subst (λ s. IsWaited (err e, s)) (if_false s (closed h s) b.0) (b.0, b.1, (s.world, refl))

  wait_loop-Booted :
      (second fuel : ℕ) (limit : Seconds) (s : State W)
      → Waiting s
      → Partial Booted
          (for_attempts (loop_clock h) (wait_options h second limit) (wait_body h) fuel s)
  wait_loop-Booted second fuel limit s p =
      for_attempts_rule (loop_clock h) (wait_options h second limit) (wait_body h) Waiting Booted
        (λ a s _ p. wait_body-After a s p)
        (λ a s p.
          pause_keeps (loop_clock h) (wait_options h second limit) (λ s. s.is_rebooted) a s
            (λ s. refl) (λ d s. refl)
          ∙ p)
        fuel s p

  time_left-Waiting :
      (timeout : Seconds) (s : State W) → Waiting s → Waiting (time_left h timeout s).1
  time_left-Waiting none s p = p
  time_left-Waiting (some t) s p = since s.start_time
    where
      since : (start : Option ℕ) → Waiting (left_since h t start s).1
      since none = p
      since (some start) = p

  wait_limited-IsWaited :
      (second fuel : ℕ) (timeout : Seconds) (o : ToSecondsValue × State W)
      → Waiting o.1
      → 60 < fuel
      → IsWaited (wait_limited h second fuel timeout o)
  unfolding wait_limited
  wait_limited-IsWaited second fuel timeout (left, s) p enough = close_unless_rebooted-IsWaited _ (
      ended-IsEnded s _ (wait_loop-Booted second fuel _ s p) (
        for_attempts-counted (loop_clock h) _ (wait_body h) 60 (wait_options-count h second _) fuel
          s enough))

  -- The wait of an operation that is not rebooted: when it returns, is_rebooted is set, and the last
  -- uptime that was read is less than the time since the reboot was ordered, by the clock read after
  -- it; when it raises, is_rebooted is not set and the
  -- last that it did is to close the connection.
  pub wait_for_operation-IsWaited :
      (second fuel : ℕ) (operation_timeout timeout : Seconds) (s : State W)
      → s.is_rebooted ≡ false
      → 60 < fuel
      → IsWaited (wait_for_operation h second fuel operation_timeout timeout s)
  unfolding wait_for_operation
  wait_for_operation-IsWaited second fuel operation_timeout timeout s p enough =
      subst IsWaited
        (if_false (ok tt, s) (wait_limited h second fuel timeout (time_left h operation_timeout s))
          p)
        (wait_limited-IsWaited second fuel timeout _ (time_left-Waiting operation_timeout s p)
          enough)
