-- ===== src/Process/External.antt =====
-- An external process is started again, whatever the check of the one before did.
use tobiko.Prelude.{
  ℕ, ◌*◌, Bool, true, false, ◌≡◌, ◌⊎◌, inl, inr, refl, sym, subst, Option, none, some, Result, ok,
  err,
}
use tobiko.Process.{
  Service, checked_after, stopped, if_alive, if_started, if_started_alive,
  check_or_start_external_process,
}

module _ {W E : Type 0} (service : Service W E) (second : ℕ) where
  -- A process that is alive is stopped, and three seconds pass; without a stop function nothing
  -- happens.
  abbrev pub StopsBy : Option (W → Result E Unit × W) → W → Result E Unit → W → Type 0
  StopsBy none before (ok _) after = before ≡ after
  StopsBy none before (err e) after = ⊥
  StopsBy (some stop) before (ok _) after =
      (w : W) × (stop before ≡ (ok tt, w)) × (after ≡ service.sleep (3 * second) w)
  StopsBy (some stop) before (err e) after = stop before ≡ (err e, after)

  abbrev pub Stops : (before : W) → Result E Unit → (after : W) → Type 0
  Stops before r after = StopsBy service.stop_function before r after

  -- What the check of the old process does before the start: it asks whether the process is alive,
  -- and where it is, stops it and checks. The first exception ends it.
  abbrev pub Checks : (before : W) → Result E Unit → (after : W) → Type 0
  Checks before (ok _) after =
      (service.liveness_function before ≡ (ok false, after))
      ⊎ ((w : W) × (w' : W) × (service.liveness_function before ≡ (ok true, w))
          × Stops w (ok tt) w'
          × (service.check_function w' ≡ (ok tt, after)))
  Checks before (err e) after =
      (service.liveness_function before ≡ (err e, after))
      ⊎ ((w : W) × (service.liveness_function before ≡ (ok true, w)) × Stops w (err e) after)
      ⊎ ((w : W) × (w' : W) × (service.liveness_function before ≡ (ok true, w))
          × Stops w (ok tt) w'
          × (service.check_function w' ≡ (err e, after)))

  -- Started from a world, and alive three seconds later.
  abbrev pub StartsAlive : (before after : W) → Type 0
  StartsAlive before after =
      (w : W) × (service.start_function before ≡ (ok tt, w))
      × (service.liveness_function (service.sleep (3 * second) w) ≡ (ok true, after))

  -- The start raised, or what is asked after it raised or said that nothing is alive.
  abbrev pub StartFails : (before : W) → E → (after : W) → Type 0
  StartFails before e after =
      (service.start_function before ≡ (err e, after))
      ⊎ ((w : W) × (service.start_function before ≡ (ok tt, w))
          × ((service.liveness_function (service.sleep (3 * second) w) ≡ (err e, after))
              ⊎ ((service.liveness_function (service.sleep (3 * second) w) ≡ (ok false, after))
                  × (e ≡ service.failure))))

  abbrev pub IsRestarted : Result E Unit × W → Result E Unit × W → Type 0
  IsRestarted (r, before) (ok _, after) = (r ≡ ok tt) × StartsAlive before after
  IsRestarted (r, before) (err e, after) =
      ((r ≡ err e) × StartsAlive before after) ⊎ StartFails before e after

  checked-Checks :
      (before w w' : W) (checked : Result E Unit × W)
      → service.liveness_function before ≡ (ok true, w)
      → Stops w (ok tt) w'
      → service.check_function w' ≡ checked
      → Checks before checked.0 checked.1
  checked-Checks before w w' (ok _, after) l s c = inr (w, w', l, s, c)
  checked-Checks before w w' (err e, after) l s c = inr (inr (w, w', l, s, c))

  stopped-Checks :
      (before w : W) (stop : W → Result E Unit × W) (stops : Result E Unit × W)
      → service.stop_function ≡ some stop
      → service.liveness_function before ≡ (ok true, w)
      → stop w ≡ stops
      → Checks before (checked_after service second stops).0 (checked_after service second stops).1
  stopped-Checks before w stop (err e, after) f l s =
      inr (inl (w, l, subst (λ f. StopsBy f w (err e) after) (sym f) s))
  stopped-Checks before w stop (ok _, w') f l s =
      checked-Checks before w (service.sleep (3 * second) w') _ l
        (subst (λ f. StopsBy f w (ok tt) (service.sleep (3 * second) w')) (sym f) (w', s, refl))
        refl

  alive-Checks :
      (before w : W) (stop : Option (W → Result E Unit × W))
      → service.stop_function ≡ stop
      → service.liveness_function before ≡ (ok true, w)
      → Checks before (stopped service second stop w).0 (stopped service second stop w).1
  alive-Checks before w none f l =
      checked-Checks before w w (service.check_function w) l
        (subst (λ f. StopsBy f w (ok tt) w) (sym f) refl) refl
  alive-Checks before w (some stop) f l = stopped-Checks before w stop (stop w) f l refl

  if_alive-Checks :
      (before : W) (alive : Result E Bool × W)
      → service.liveness_function before ≡ alive
      → Checks before (if_alive service second alive).0 (if_alive service second alive).1
  if_alive-Checks before (err e, w) l = inl l
  if_alive-Checks before (ok false, w) l = inl l
  if_alive-Checks before (ok true, w) l = alive-Checks before w service.stop_function refl l

  alive-IsRestarted :
      (r : Result E Unit) (before w : W) (l : Result E Bool × W)
      → service.start_function before ≡ (ok tt, w)
      → service.liveness_function (service.sleep (3 * second) w) ≡ l
      → IsRestarted (r, before) (if_started_alive service second r l)
  alive-IsRestarted r before w (err e, after) s a = inr (inr (w, s, inl a))
  alive-IsRestarted r before w (ok false, after) s a = inr (inr (w, s, inr (a, refl)))
  alive-IsRestarted (ok _) before w (ok true, after) s a = (refl, (w, s, a))
  alive-IsRestarted (err e) before w (ok true, after) s a = inl (refl, (w, s, a))

  started-IsRestarted :
      (r : Result E Unit) (before : W) (started : Result E Unit × W)
      → service.start_function before ≡ started
      → IsRestarted (r, before) (if_started service second r started)
  started-IsRestarted r before (err e, after) s = inr (inl s)
  started-IsRestarted r before (ok _, w) s = alive-IsRestarted r before w _ s refl

  -- The process is checked, and stopped where it was alive, up to the first exception of the liveness
  -- function, the stop or the check, and is started again in any case. The call returns only where
  -- none of them raised, the start did not, and the process was alive three seconds later; what it
  -- raises is what the check part raised, where the process was started alive, or else the failure of
  -- the start.
  pub check_or_start_external_process-IsRestarted :
      (w : W)
      → (r : Result E Unit) × (before : W) × Checks w r before
        × IsRestarted (r, before) (check_or_start_external_process service second w)
  unfolding check_or_start_external_process
  check_or_start_external_process-IsRestarted w =
      let (r, before) = if_alive service second (service.liveness_function w) in
      (
        r,
        before,
        if_alive-Checks w (service.liveness_function w) refl,
        started-IsRestarted r before (service.start_function before) refl,
      )
