-- ===== src/Reboot/Ordered.antt =====
-- What run_operation makes sure of, and reboot_host, which waits with wait_for_operation.
use tobiko.Prelude.{
  ℕ, zero, suc, ◌*◌, ◌-◌, ◌<◌, true, false, ◌≡◌, ◌≢◌, refl, ap, sym, ◌∙◌, subst, Option, none, some,
  Result, ok, err, ltb, Bool-cases, inl, inr,
}
use tobiko.Time.{Seconds}
use tobiko.Retry.{
  RetryAttempt, RetryError, raised, count_limit, time_limit, check_limits, retry, or_else,
  time_left,
}
use tobiko.Retry.Rules.{
  Partial, After, for_attempts_rule, for_attempts-counted, pause_keeps, check_limits-raised,
}
use tobiko.Reboot.{
  RebootHostMethod, reboot_command, RebootError, type_error, out_of_fuel, State, Host, with_world,
  loop_clock, closed, wait_options, ended, unable, ordered, started, executed, run_body,
  run_operation, wait_for_operation, reboot_host, after_pings, waited,
}
use tobiko.Reboot.Started.{wait_for_operation_keeps}
use tobiko.Reboot.Booted.{Restarted, IsWaited, wait_options-count, wait_for_operation-IsWaited}

module _ {W E : Type 0} (h : Host W E) (method : RebootHostMethod) where
  -- The clock was read for the start time, then the command was executed, and the connection closed.
  abbrev pub Ordered : State W → Type 0
  Ordered s =
      (w : W) × (w' : W) × (s.start_time ≡ some (h.clock.time w).0)
      × (h.exec_command (reboot_command method) (h.clock.time w).1 ≡ (ok tt, w'))
      × (s.world ≡ h.close w')

  -- A reboot as a whole: the start time of the comparison is the clock read just before the command
  -- was executed.
  abbrev pub IsReboot : Result (RebootError E) Unit × State W → Type 0
  IsReboot (ok _, s) =
      (s.is_rebooted ≡ true)
      × Restarted h s
      × ((w : W) × (w' : W) × (s.start_time ≡ some (h.clock.time w).0)
          × (h.exec_command (reboot_command method) (h.clock.time w).1 ≡ (ok tt, w')))
  IsReboot (err e, s) = (s.is_rebooted ≡ false) × (e ≢ out_of_fuel)

  IsWaited-IsReboot :
      (w : W) (w' : W)
      → h.exec_command (reboot_command method) (h.clock.time w).1 ≡ (ok tt, w')
      → (o : Result (RebootError E) Unit × State W) → o.1.start_time ≡ some (h.clock.time w).0
      → IsWaited h o
      → IsReboot o
  IsWaited-IsReboot w w' c (ok _, s) k q = (q.0, q.1, (w, w', k, c))
  IsWaited-IsReboot w w' c (err e, s) k q = (q.0, q.1)

  abbrev Faultless : RetryError (RebootError E) → Type 0
  Faultless x = (x ≢ raised type_error) × (x ≢ raised out_of_fuel)

  abbrev Left : Result (RetryError (RebootError E)) Unit → State W → Type 0
  Left (ok _) s = (s.is_rebooted ≡ false) × Ordered s
  Left (err x) s = (s.is_rebooted ≡ false) × Faultless x × ((w : W) × (s.world ≡ h.close w))

  abbrev Waiting : State W → Type 0
  Waiting s = s.is_rebooted ≡ false

  limits-Faultless :
      (a : RetryAttempt) (x : RetryError (RebootError E))
      → check_limits {E = RebootError E} none a ≡ err x
      → Faultless x
  limits-Faultless a x l = (other type_error, other out_of_fuel)
    where
      other : (e : RebootError E) → x ≢ raised e
      other e f = let g : none ≡ some e = check_limits-raised none a e (l ∙ ap err f) in absurd cc

  some_left-After :
      (a : RetryAttempt) (left : ℕ) (s : State W)
      → Waiting s
      → After Waiting Left a (unable h a (some left), closed h s)
  some_left-After a left s p = elim (Bool-cases (ltb 0 left)) [
    | inl more ↦ rw more (p, λ x l. (p, limits-Faultless a x l, (s.world, refl)))
    | inr over ↦ rw over (p, ((λ f. absurd cc), (λ f. absurd cc)), (s.world, refl))
  ]

  time_left-some :
      (a : RetryAttempt) (t : ℕ) → a.timeout ≡ some t → (left : ℕ) × (time_left a ≡ some left)
  unfolding time_left
  time_left-some a t timed = (t - a.elapsed_time, rw (timed, time_left) refl)

  unable-After :
      (a : RetryAttempt) (t : ℕ) (s : State W)
      → a.timeout ≡ some t
      → Waiting s
      → After Waiting Left a (unable h a (time_left a), closed h s)
  unable-After a t s timed p =
      let (left, e) = time_left-some a t timed in
      subst (λ o. After Waiting Left a (unable h a o, closed h s)) (sym e)
        (some_left-After a left s p)

  run_body-After :
      (a : RetryAttempt) (t : ℕ) (s : State W)
      → a.timeout ≡ some t
      → Waiting s
      → After Waiting Left a (run_body h method a s)
  unfolding run_body executed
  run_body-After a t s timed p = connected (h.connect (time_left a) s.world)
    where
      commanded :
          (w : W) (r : Result E Unit × W)
          → h.exec_command (reboot_command method) (h.clock.time w).1 ≡ r
          → let (verdict, s') = ordered h a s (h.clock.time w).0 r in
            After Waiting Left a (verdict, closed h s')
      commanded w (err e, w') eq = unable-After a t (started h s (h.clock.time w).0 w') timed p
      commanded w (ok _, w') eq = (p, (w, w', refl, eq, refl))

      connected :
          (r : Result E Unit × W)
          → let (verdict, s') = executed h method a s r in
            After Waiting Left a (verdict, closed h s')
      connected (err e, w) = unable-After a t (with_world h s w) timed p
      connected (ok _, w) =
          commanded w (h.exec_command (reboot_command method) (h.clock.time w).1) refl

  wait_options-timeout :
      (second : ℕ) (timeout : Seconds)
      → (t : ℕ) × ((wait_options h second timeout).timeout ≡ some t)
  unfolding retry or_else
  wait_options-timeout second none = (300 * second, refl)
  wait_options-timeout second (some zero) = (300 * second, refl)
  wait_options-timeout second (some (suc n)) = (suc n, refl)

  abbrev pub IsOrdered : Result (RebootError E) Unit × State W → Type 0
  IsOrdered (ok _, s) = (s.is_rebooted ≡ false) × Ordered s
  IsOrdered (err e, s) =
      (s.is_rebooted ≡ false)
      × (e ≢ type_error)
      × (e ≢ out_of_fuel)
      × ((w : W) × (s.world ≡ h.close w))

  ended-IsOrdered :
      (s : State W) (o : Option (Result (RetryError (RebootError E)) Unit × State W))
      → Partial Left o
      → o ≢ none
      → IsOrdered (ended h s o)
  ended-IsOrdered s none q n = absurd (n refl)
  ended-IsOrdered s (some (ok _, s')) q n = q
  ended-IsOrdered s (some (err (raised e), s')) q n =
      (q.0, (λ f. q.1.0 (ap raised f)), (λ f. q.1.1 (ap raised f)), q.2)
  ended-IsOrdered s (some (err (count_limit a), s')) q n =
      (q.0, (λ f. absurd cc), (λ f. absurd cc), q.2)
  ended-IsOrdered s (some (err (time_limit a), s')) q n =
      (q.0, (λ f. absurd cc), (λ f. absurd cc), q.2)

  module _ (second fuel : ℕ) (enough : 60 < fuel) where
    -- The operation ends within 61 rounds of its loop. When it returns, the command was executed
    -- after the start time was read, and then the connection was closed; when it raises, it does not
    -- compare None with a number, and the connection is closed too. The host is not rebooted yet.
    pub run_operation-IsOrdered :
        (timeout : Seconds) (s : State W) → IsOrdered (run_operation h second fuel method timeout s)
    unfolding run_operation
    run_operation-IsOrdered timeout s =
        let (t, timed) = wait_options-timeout second timeout in
        let r = wait_options h second timeout in
        let fresh : State W = record { is_rebooted = false; start_time = none; world = s.world } in
        ended-IsOrdered s _
          (for_attempts_rule (loop_clock h) r (run_body h method) Waiting Left
            (λ a s i p. run_body-After a t s (i ∙ timed) p)
            (λ a s p.
              pause_keeps (loop_clock h) r (λ s. s.is_rebooted) a s (λ s. refl) (λ d s. refl) ∙ p)
            fuel fresh refl)
          (for_attempts-counted (loop_clock h) r (run_body h method) 60
            (wait_options-count h second timeout) fuel fresh enough)

    module _ (wait_for_ping_hosts : W → Result (Option E) Unit × W) where
      waited-IsReboot :
          (timeout : Seconds) (o : Result (RebootError E) Unit × State W)
          → IsOrdered o
          → IsReboot (waited h wait_for_ping_hosts second fuel true timeout o)
      waited-IsReboot timeout (err e, s) q = (q.0, q.2)
      waited-IsReboot timeout (ok _, s) (fresh, (w, w', begun, c, _)) =
          pinged (wait_for_ping_hosts s.world)
        where
          on : (v : W) → IsReboot (wait_for_operation h second fuel timeout none (with_world h s v))
          on v =
              IsWaited-IsReboot w w' c _
                (wait_for_operation_keeps h _ second fuel timeout none (with_world h s v) begun)
                (wait_for_operation-IsWaited h second fuel timeout none (with_world h s v) fresh
                  enough)

          pinged :
              (r : Result (Option E) Unit × W)
              → IsReboot (after_pings h (wait_for_operation h second fuel timeout none) s r)
          pinged (ok _, v) = on v
          pinged (err none, v) = on v
          pinged (err (some e), v) = (fresh, λ f. absurd cc)

      -- With wait, a reboot ends within 61 rounds of each of its two loops. It returns only where
      -- the command was executed, with the clock read just before it as the start time, and the last
      -- uptime that was read is less than the time since that start time; is_rebooted is set then.
      -- Where it raises, is_rebooted is not set.
      pub reboot_host-IsReboot :
          (timeout : Seconds) (w : W)
          → IsReboot (reboot_host h wait_for_ping_hosts second fuel true timeout method w)
      unfolding reboot_host
      reboot_host-IsReboot timeout w = waited-IsReboot timeout _ (
          run_operation-IsOrdered timeout
            (record { is_rebooted = false; start_time = none; world = w }))
