-- ===== src/Ping/Until.antt =====
-- `ping` and the functions for one type of message of tobiko/shell/ping/_ping.py, over
-- `get_statistics`. What is left of the state is left out of the result.
use tobiko.Prelude.{
  ℕ, ◌+◌, ◌≤◌, ◌≡◌, Option, none, some, Result, ok, err, arith, inl, inr, Option-cases,
}
use tobiko.Retry.Loop.{Clock}
use tobiko.Ping.Statistics.{PingStatistics, empty, AddError}
use tobiko.Ping.Rounds.{
  Parameters, Until, delivered', undelivered', received', unreceived', Execution, Reply, PingError,
  iter_statistics, sum,
}
use tobiko.Ping.Counting.{Reached, iter_statistics-Outcome}

-- `statistics += partial_statistics` may raise, before the generator does.
pub data StatisticsError (E : Type 0) : Type 0 where
  add_raised : AddError → StatisticsError E
  iter_raised : PingError E → StatisticsError E

abbrev total_of :
    {E : Type 0}
    → Result AddError PingStatistics
    → Result (PingError E) (Unit {0})
    → Result (StatisticsError E) PingStatistics
total_of (err e) x = err (add_raised e)
total_of (ok t) (ok _) = ok t
total_of (ok t) (err e) = err (iter_raised e)

module _ {S E : Type 0} (clock : Clock S) (second : ℕ)
    (execute : Execution → S → Result E (Option Reply) × S) (fuel : ℕ) where
  unfoldable pub get_statistics :
      Until → Parameters → S → Option (Result (StatisticsError E) PingStatistics)
  get_statistics until parameters s =
      elim (iter_statistics clock second execute parameters until fuel s) [
        | none ↦ none
        | some (ys, x, l, s') ↦ some (total_of (sum empty ys) x)
      ]

  unfoldable pub ping : Until → Parameters → S → Option (Result (StatisticsError E) PingStatistics)
  unfolding get_statistics
  ping until = get_statistics until

  unfoldable pub ping_until_delivered :
      Parameters → S → Option (Result (StatisticsError E) PingStatistics)
  unfolding ping
  ping_until_delivered = ping delivered'

  unfoldable pub ping_until_undelivered :
      Parameters → S → Option (Result (StatisticsError E) PingStatistics)
  unfolding ping
  ping_until_undelivered = ping undelivered'

  unfoldable pub ping_until_received :
      Parameters → S → Option (Result (StatisticsError E) PingStatistics)
  unfolding ping
  ping_until_received = ping received'

  unfoldable pub ping_until_unreceived :
      Parameters → S → Option (Result (StatisticsError E) PingStatistics)
  unfolding ping
  ping_until_unreceived = ping unreceived'

  get_statistics-Reached :
      (until : Until) (parameters : Parameters) (s : S) (t : PingStatistics)
      → get_statistics until parameters s ≡ some (ok t)
      → (m : ℕ) × Reached until parameters.count t m
  unfolding get_statistics
  get_statistics-Reached until parameters s t h =
      elim (Option-cases (iter_statistics clock second execute parameters until fuel s)) [
        | inl e ↦ absurd (ground arith)
        | inr ((ys, err x, l, s'), e) ↦ absurd (ground arith)
        | inr ((ys, ok x, l, s'), e) ↦
            let (m, missed, reached) =
              iter_statistics-Outcome clock second execute parameters until fuel s ys (ok x) l s' t
                e (ground arith) in
            (m, reached)
      ]

  -- Where `ping_until_received` returns, the replies it counts reach the count that was asked for.
  pub ping_until_received_lem :
      (parameters : Parameters) (s : S) (t : PingStatistics)
      → ping_until_received parameters s ≡ some (ok t)
      → parameters.count ≤ t.received
  unfolding ping_until_received ping
  ping_until_received_lem parameters s t h = (get_statistics-Reached received' parameters s t h).1

  -- Where `ping_until_delivered` returns, the messages transmitted without an error reach it.
  ping_until_delivered_lem :
      (parameters : Parameters) (s : S) (t : PingStatistics)
      → ping_until_delivered parameters s ≡ some (ok t)
      → parameters.count + t.undelivered ≤ t.transmitted
  unfolding ping_until_delivered ping
  ping_until_delivered_lem parameters s t h = (get_statistics-Reached delivered' parameters s t h).1
