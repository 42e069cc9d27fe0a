-- ===== src/Reboot/Started.antt =====
-- `wait_for_operation` leaves the start time as it was.
use tobiko.Prelude.{
  ℕ, Bool, true, false, ◌≡◌, refl, ◌∙◌, [], ◌∷◌, Option, none, some, Result, ok, err, if◌then◌else◌,
  arith,
}
use tobiko.Time.{Seconds, ToSecondsValue, min_seconds}
use tobiko.Retry.{RetryAttempt, RetryError, raised, count_limit, time_limit}
use tobiko.Retry.Loop.{Verdict, finish, again, throw, for_attempts}
use tobiko.Retry.Rules.{Partial, After, for_attempts_rule, pause_keeps}
use tobiko.Reboot.{
  RebootError, State, Host, with_world, loop_clock, closed, wait_options, ended, left_since,
  wait_limited, time_left, elapsed_since, compared, after_uptime, after_cleanup, wait_body,
  close_unless_rebooted, seconds_or_none, given, wait_for_operation,
}

module _ {W E : Type 0} (h : Host W E) where
  compared_keeps :
      (a : RetryAttempt) (up : ℕ) (o : Seconds × State W)
      → (compared h a up o).1.start_time ≡ o.1.start_time
  unfolding compared
  compared_keeps a up (none, s) = refl
  compared_keeps a up (some elapsed, s) = ground arith

  elapsed_since_keeps :
      (start : Option ℕ) (s : State W) → (elapsed_since h start s).1.start_time ≡ s.start_time
  elapsed_since_keeps none s = refl
  elapsed_since_keeps (some start) s = refl

  after_uptime_keeps :
      (a : RetryAttempt) (s : State W) (r : Result E ℕ × W)
      → (after_uptime h a s r).1.start_time ≡ s.start_time
  unfolding after_uptime
  after_uptime_keeps a s (err e, w) = refl
  after_uptime_keeps a s (ok up, w) =
      compared_keeps a up _ ∙ elapsed_since_keeps s.start_time (with_world h s w)

  after_cleanup_keeps :
      (a : RetryAttempt) (s : State W) (r : Result E Unit × W)
      → (after_cleanup h a s r).1.start_time ≡ s.start_time
  unfolding after_cleanup
  after_cleanup_keeps a s (err e, w) = refl
  after_cleanup_keeps a s (ok _, w) =
      let kept = after_uptime_keeps a (with_world h s w) (h.get_uptime w) in ground arith

  module _ (start : Option ℕ) where
    abbrev Kept : State W → Type 0
    Kept s = s.start_time ≡ start

    Kept-After :
        (a : RetryAttempt) (o : Verdict (RebootError E) Unit × State W)
        → Kept o.1
        → After Kept (λ x. Kept) a o
    Kept-After a (finish x, s) k = k
    Kept-After a (throw x, s) k = k
    Kept-After a (again, s) k = (k, λ x l. k)

    wait_body-After :
        (a : RetryAttempt) (s : State W) → Kept s → After Kept (λ x. Kept) a (wait_body h a s)
    unfolding wait_body
    wait_body-After a s k =
        Kept-After a (wait_body h a s) (after_cleanup_keeps a s (h.cleanup s.world) ∙ k)

    ended_keeps :
        (s : State W) (o : Option (Result (RetryError (RebootError E)) Unit × State W))
        → Kept s
        → Partial (λ x. Kept) o
        → Kept (ended h s o).1
    ended_keeps s none k q = k
    ended_keeps s (some (ok _, s')) k q = q
    ended_keeps s (some (err (raised e), s')) k q = q
    ended_keeps s (some (err (count_limit a), s')) k q = q
    ended_keeps s (some (err (time_limit a), s')) k q = q

    if_keeps : (b : Bool) (s s' : State W) → Kept s → Kept s' → Kept (if b then s else s')
    if_keeps true s s' k k' = k
    if_keeps false s s' k k' = k'

    close_unless_rebooted_keeps :
        (o : Result (RebootError E) Unit × State W) → Kept o.1 → Kept (close_unless_rebooted h o).1
    close_unless_rebooted_keeps (x, s) k = if_keeps s.is_rebooted s (closed h s) k k

    loop_keeps :
        (second fuel : ℕ) (limit : Seconds) (s : State W)
        → Kept s
        → Partial
            (λ x. Kept)
            (for_attempts (loop_clock h) (wait_options h second limit) (wait_body h) fuel s)
    loop_keeps second fuel limit s k =
        for_attempts_rule (loop_clock h) (wait_options h second limit) (wait_body h) Kept
          (λ x. Kept) (λ a s _ k. wait_body-After a s k)
          (λ a s k.
            pause_keeps (loop_clock h) (wait_options h second limit) (λ s. s.start_time) a s
              (λ s. refl) (λ d s. refl)
            ∙ k)
          fuel s k

    wait_limited_keeps :
        (second fuel : ℕ) (timeout : Seconds) (o : ToSecondsValue × State W)
        → Kept o.1
        → Kept (wait_limited h second fuel timeout o).1
    unfolding wait_limited
    wait_limited_keeps second fuel timeout (left, s) k =
        let limit = seconds_or_none h (min_seconds (λ _. none) (given h timeout ∷ left ∷ [])) in
        let loop = for_attempts (loop_clock h) (wait_options h second limit) (wait_body h) fuel s in
        close_unless_rebooted_keeps (ended h s loop)
          (ended_keeps s loop k (loop_keeps second fuel limit s k))

    time_left_keeps : (timeout : Seconds) (s : State W) → Kept s → Kept (time_left h timeout s).1
    time_left_keeps none s k = k
    time_left_keeps (some t) s k = since s.start_time
      where
        since : (start : Option ℕ) → Kept (left_since h t start s).1
        since none = k
        since (some start) = k

    -- Whether it returns or raises, the start time is the one from before.
    pub wait_for_operation_keeps :
        (second fuel : ℕ) (operation_timeout timeout : Seconds) (s : State W)
        → s.start_time ≡ start
        → (wait_for_operation h second fuel operation_timeout timeout s).1.start_time ≡ start
    unfolding wait_for_operation
    wait_for_operation_keeps second fuel operation_timeout timeout s k =
        let waited =
          wait_limited_keeps second fuel timeout (time_left h operation_timeout s)
            (time_left_keeps operation_timeout s k) in
        ground arith
