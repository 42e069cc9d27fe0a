-- ===== src/Ping/Statistics.antt =====
-- `PingStatistics` of tobiko/shell/ping/_statistics.py. Intervals are readings of the clock.
use tobiko.Prelude.{
  ℕ, suc, zero, ◌+◌, ◌-◌, ◌≡◌, String, Bool, not, Option, none, some, Result, ok, err, ◌>>=◌, min,
  max, ◌==◌, arith,
}

pub record PingStatistics : Type 0 where
  pub source : Option String
  pub destination : Option String
  pub transmitted : ℕ
  pub received : ℕ
  pub undelivered : ℕ
  pub begin_interval : Option ℕ
  pub end_interval : Option ℕ

abbrev pub empty : PingStatistics
empty = record {
  source = none;
  destination = none;
  transmitted = 0;
  received = 0;
  undelivered = 0;
  begin_interval = none;
  end_interval = none;
}

-- `max(0, self.transmitted - self.received)`
unfoldable pub unreceived : PingStatistics → ℕ
unreceived s = s.transmitted - s.received

unfoldable pub delivered : PingStatistics → ℕ
delivered s = s.transmitted - s.undelivered

unfoldable pub is_true : PingStatistics → Bool
is_true s = not (s.received == 0)

-- `min(...)` of nothing raises ValueError.
pub data AddError : Type 0 where
  empty_interval : AddError

-- `f(i for i in [a, b] if i)`: a time of 0 is as good as None.
abbrev of_true : (ℕ → ℕ → ℕ) → Option ℕ → Option ℕ → Result AddError ℕ
of_true f none none = err empty_interval
of_true f none (some zero) = err empty_interval
of_true f none (some (suc b)) = ok (suc b)
of_true f (some zero) none = err empty_interval
of_true f (some zero) (some zero) = err empty_interval
of_true f (some zero) (some (suc b)) = ok (suc b)
of_true f (some (suc a)) none = ok (suc a)
of_true f (some (suc a)) (some zero) = ok (suc a)
of_true f (some (suc a)) (some (suc b)) = ok (f (suc a) (suc b))

abbrev or_else : Option String → Option String → Option String
or_else none b = b
or_else (some a) b = some a

-- `__add__`
unfoldable pub add : PingStatistics → PingStatistics → Result AddError PingStatistics
add s t = do
  begin ← of_true min s.begin_interval t.begin_interval
  end ← of_true max s.end_interval t.end_interval
  ok (record {
    source = or_else s.source t.source;
    destination = or_else s.destination t.destination;
    transmitted = s.transmitted + t.transmitted;
    received = s.received + t.received;
    undelivered = s.undelivered + t.undelivered;
    begin_interval = some begin;
    end_interval = some end;
  })

-- The counters of a sum are the sums of the counters.
pub add_counters :
    (s t u : PingStatistics)
    → add s t ≡ ok u
    → (u.transmitted ≡ s.transmitted + t.transmitted)
      × (u.received ≡ s.received + t.received)
      × (u.undelivered ≡ s.undelivered + t.undelivered)
unfolding add
add_counters s t u h = (ground arith, ground arith, ground arith)
