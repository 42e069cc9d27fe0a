-- ===== src/Process/Ending.antt =====
-- A process that is closed has ended or was killed, and its exit status does not change.
use tobiko.Prelude.{◌≡◌, ◌⊎◌, inl, inr, refl, ap, Option, none, some, Result, ok, err}
use tobiko.Time.{ℤ, Seconds}
use tobiko.Process.{
  ProcessError, raised, shell_process_terminated, Shell, Process, polled, read_status,
  read_exit_status, not_running, check_is_running, or_expired, kill_unless, finally_raise,
  terminate, get_exit_status, close, with_world,
}

module _ {W E : Type 0} (sh : Shell W E) (parameter : Seconds) where
  -- The exit status was read last.
  abbrev pub HasEnded : W → Type 0
  HasEnded after =
      (w : W) × (status : ℤ) × (sh.get_exit_status parameter w ≡ (ok (some status), after))

  abbrev pub WasKilled : W → Type 0
  WasKilled after = (w : W) × (after ≡ (sh.kill w).1)

  abbrev pub IsEnded : Result (ProcessError E) Unit × W → Type 0
  IsEnded (ok _, after) = HasEnded after
  IsEnded (err e, after) = (((x : E) × (e ≡ raised x)) × HasEnded after) ⊎ WasKilled after

  abbrev Terminated : Result (ProcessError E) Unit × W → Type 0
  Terminated (ok _, after) = HasEnded after
  Terminated (err e, after) = WasKilled after

  status-Terminated :
      (w : W) (o : Result E (Option ℤ) × W)
      → sh.get_exit_status parameter w ≡ o
      → Terminated (kill_unless sh (or_expired sh parameter o))
  status-Terminated w (err e, w') h = (w', refl)
  status-Terminated w (ok none, w') h = (w', refl)
  status-Terminated w (ok (some s), w') h = (w, s, h)

  terminate-Terminated : (w : W) → Terminated (terminate sh parameter w)
  unfolding terminate get_exit_status
  terminate-Terminated w = status-Terminated _ _ refl

  finally-IsEnded :
      (r : Result E Unit) (o : Result (ProcessError E) Unit × W)
      → Terminated o
      → IsEnded (finally_raise sh r o)
  finally-IsEnded r (err e, w) t = inr t
  finally-IsEnded (ok _) (ok _, w) t = t
  finally-IsEnded (err e) (ok _, w) t = inl ((e, refl), t)

  -- Whatever the streams, the exchange of data and the kill do, a process that is closed has ended, its
  -- exit status being read last, or was killed last; close returns only where it has ended.
  pub close-IsEnded : (timeout : Seconds) (w : W) → IsEnded (close sh timeout parameter w)
  unfolding close
  close-IsEnded timeout w = finally-IsEnded _ _ (terminate-Terminated _)

module _ {W E : Type 0} (sh : Shell W E) where
  -- What a reading of the exit status says of the readings after it, in any later world.
  abbrev pub IsStable : Result (ProcessError E) (Option ℤ) × Process W → Type 0
  IsStable (err e, p) = (p.exit_status ≡ none)
  IsStable (ok none, p) = (p.exit_status ≡ none)
  IsStable (ok (some s), p) =
      (w : W)
      → (read_exit_status sh (with_world sh p w) ≡ (ok (some s), with_world sh p w))
        × (check_is_running sh (with_world sh p w)
            ≡ (err (shell_process_terminated s), with_world sh p w))

  known-IsStable : (s : ℤ) (p : Process W) → p.exit_status ≡ some s → IsStable (ok (some s), p)
  unfolding check_is_running read_exit_status
  known-IsStable s p e w =
      let q = with_world sh p w in
      (ap (λ o. read_status sh o q) e, ap (λ o. not_running sh (read_status sh o q)) e)

  polled-IsStable :
      (p : Process W) (o : Result E (Option ℤ) × W)
      → p.exit_status ≡ none
      → IsStable (polled sh p o)
  polled-IsStable p (err e, w) n = n
  polled-IsStable p (ok none, w) n = n
  polled-IsStable p (ok (some s), w) n =
      known-IsStable s (record { exit_status = some s; world = w }) refl

  -- Once a reading of the exit status gives one, every later reading gives the same without asking the
  -- process, and check_is_running raises ShellProcessTerminated with it; before, none is kept.
  pub read_exit_status-IsStable : (p : Process W) → IsStable (read_exit_status sh p)
  unfolding read_exit_status
  read_exit_status-IsStable p = go p.exit_status refl
    where
      go : (status : Option ℤ) → p.exit_status ≡ status → IsStable (read_status sh status p)
      go none e = polled-IsStable p (sh.poll_exit_status p.world) e
      go (some s) e = known-IsStable s p e
