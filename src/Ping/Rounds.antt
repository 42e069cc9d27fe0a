-- ===== src/Ping/Rounds.antt =====
-- `iter_statistics` and `get_statistics` of tobiko/shell/ping/_ping.py.
-- Times are ticks of the clock, `second` of them to a second. `execute` stands for `execute_ping` and
-- the parser of its output: it raises, has no output, or has the counters of the ping command.
use Prim.Native.Nat.{◌*◌, ◌/◌}
use tobiko.Prelude.{
  ℕ, zero, suc, ◌+◌, ◌-◌, String, Bool, true, false, ◌&&◌, Option, none, some, List, [], ◌∷◌, ◌++◌,
  Result, ok, err, ◌>>=◌, min, ltb, leb, if◌then◌else◌,
}
use tobiko.Time.{ℤ, pos, negsuc}
use tobiko.Retry.Loop.{Clock}
use tobiko.Ping.Statistics.{PingStatistics, AddError, add}

pub record Parameters : Type 0 where
  pub count : ℕ
  pub deadline : ℕ
  pub timeout : ℕ
  -- in ticks
  pub interval : ℕ

pub data Until : Type 0 where
  anything transmitted' delivered' undelivered' received' unreceived' : Until

-- What the execution of the ping command is given.
pub record Execution : Type 0 where
  pub deadline : ℕ
  pub count : ℕ
  pub timeout : ℕ

pub record Reply : Type 0 where
  pub source : Option String
  pub destination : Option String
  pub transmitted : ℕ
  pub received : ℕ
  pub undelivered : ℕ

pub data PingError (E : Type 0) : Type 0 where
  ping_failed : (count : ℤ) (expected : ℕ) → PingError E
  raised : E → PingError E

-- The variables of the loop.
pub record Counters : Type 0 where
  pub transmitted : ℕ
  pub received : ℕ
  pub undelivered : ℕ
  pub count : ℤ
  pub deadline : ℕ
  pub elapsed : Option ℕ
  pub now : ℕ

abbrev pub difference : ℕ → ℕ → ℤ
difference a b = if leb b a then pos (a - b) else negsuc (b - a - 1)

unfoldable pub counted : Until → (transmitted received undelivered : ℕ) → ℤ
counted anything t r u = pos 0
counted transmitted' t r u = pos t
counted delivered' t r u = difference t u
counted undelivered' t r u = pos u
counted received' t r u = pos r
counted unreceived' t r u = difference t r

-- `count < parameters.count`
abbrev pub below : ℤ → ℕ → Bool
below (pos c) n = ltb c n
below (negsuc c) n = true

-- `parameters.count - count`, where the count is below
abbrev left_of : ℤ → ℕ → ℕ
left_of (pos c) n = n - c
left_of (negsuc c) n = n + suc c

-- `if until and count < parameters.count: raise PingFailed`
unfoldable pub finish :
    {E : Type 0} → Until → (expected : ℕ) → (count : ℤ) → Result (PingError E) (Unit {0})
finish anything n c = ok tt
finish _ n c = if below c n then err (ping_failed c n) else ok tt

module _ {S E : Type 0} (clock : Clock S) (second : ℕ)
    (execute : Execution → S → Result E (Option Reply) × S) (parameters : Parameters)
    (until : Until) where
  abbrev pub in_loop : Counters → Bool
  in_loop l = ltb 0 l.deadline && below l.count parameters.count

  -- `deadline` limits the messages where the ping command does not count what is counted here.
  limit_of : Until → ℕ → ℕ → ℕ
  limit_of received' left deadline = left
  limit_of _ left deadline = min left (parameters.interval * deadline / second)

  unfoldable pub execution : Counters → ℕ → Execution
  unfolding limit_of
  execution l end_of_time = record {
    deadline = l.deadline;
    count = limit_of until (left_of l.count parameters.count) l.deadline;
    timeout = (end_of_time - l.now) / second;
  }

  -- Avoids busy waiting when errors happen.
  unfoldable pub wait : Counters → S → S
  wait l s = elim l.elapsed [
    | none ↦ s
    | some e ↦ if ltb e (l.deadline * second) then clock.sleep (l.deadline * second - e) s else s
  ]

  -- Without output one undelivered message is assumed.
  unfoldable pub count_reply : Option Reply → Counters → Counters
  count_reply none l = record l { transmitted = l.transmitted + 1; undelivered = l.undelivered + 1 }
  count_reply (some r) l = record l {
    transmitted = l.transmitted + r.transmitted;
    received = l.received + r.received;
    undelivered = l.undelivered + r.undelivered;
  }

  unfoldable pub yielded : Option Reply → (begin end' : ℕ) → List PingStatistics
  yielded none begin end' = []
  yielded (some r) begin end' =
      record {
        source = r.source;
        destination = r.destination;
        transmitted = r.transmitted;
        received = r.received;
        undelivered = r.undelivered;
        begin_interval = some begin;
        end_interval = some end';
      }
      ∷ []

  -- The end of a round: the count, the time and what is left of it.
  unfoldable pub advance : Counters → (end_of_time start now : ℕ) → Counters
  unfolding counted
  advance l end_of_time start now = record l {
    count = counted until l.transmitted l.received l.undelivered;
    now = now;
    deadline = min ((end_of_time - now) / second) parameters.deadline;
    elapsed = some (now - start);
  }

  -- The end of the interval is read where there is output to parse.
  unfoldable pub stamp : Option Reply → S → ℕ × S
  stamp none s = (0, s)
  stamp (some r) s = clock.time s

  -- One execution: what it yields, and the variables and the state after it.
  unfoldable pub round :
      Counters → (end_of_time : ℕ) → S → Result E (List PingStatistics × Counters) × S
  unfolding wait stamp execution count_reply yielded advance
  round l end_of_time s =
      let (start, s1) = clock.time (wait l s) in
      let (output, s2) = execute (execution l end_of_time) s1 in
      elim output [
        | err e ↦ (err e, s2)
        | ok reply ↦
            let (end', s3) = stamp reply s2 in
            let (now, s4) = clock.time s3 in
            (ok (yielded reply l.now end', advance (count_reply reply l) end_of_time start now), s4)
      ]

  -- What was yielded, how the generator ended, the variables and the state; on fuel.
  abbrev pub Yields : Type 0
  Yields = Option (List PingStatistics × Result (PingError E) (Unit {0}) × Counters × S)

  unfoldable pub prepend : List PingStatistics → Yields → Yields
  prepend ys none = none
  prepend ys (some (zs, x, l, s)) = some (ys ++ zs, x, l, s)

  unfoldable pub rounds : ℕ → Counters → (end_of_time : ℕ) → S → Yields
  unfolding round finish prepend
  rounds zero l end_of_time s = none
  rounds (suc fuel) l end_of_time s = elim (in_loop l) [
    | false ↦ some ([], finish until parameters.count l.count, l, s)
    | true ↦
        let (result, s') = round l end_of_time s in
        elim result [
          | err e ↦ some ([], err (raised e), l, s')
          | ok after ↦ prepend after.0 (rounds fuel after.1 end_of_time s')
        ]
  ]

  abbrev pub start_counters : ℕ → Counters
  start_counters now = record {
    transmitted = 0;
    received = 0;
    undelivered = 0;
    count = pos 0;
    deadline = parameters.deadline;
    elapsed = none;
    now = now;
  }

  unfoldable pub iter_statistics : ℕ → S → Yields
  unfolding rounds
  iter_statistics fuel s =
      let (now, s') = clock.time s in
      rounds fuel (start_counters now) (now + parameters.timeout * second) s'

-- `statistics += partial_statistics`, over what was yielded before the generator ended
unfoldable pub sum : PingStatistics → List PingStatistics → Result AddError PingStatistics
sum s [] = ok s
sum s (t ∷ ts) = do u ← add s t; sum u ts
