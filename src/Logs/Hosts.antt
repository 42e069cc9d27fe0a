-- ===== src/Logs/Hosts.antt =====
-- The new lines of several hosts.
use tobiko.Prelude.{
  ℕ, ◌≡◌, ◌≢◌, String, true, Option, none, some, List, [], ◌∷◌, ◌++◌, Result, ok, err, arith,
  str_eq, eq_iff, if◌then◌else◌,
}
use tobiko.Prelude.Dict.{Dict, lookup, lookup-insert}
use tobiko.Retry.{RetryAttempt, RetryError, Options}
use tobiko.Retry.Loop.{Clock}
use tobiko.Retry.Rules.{Partial, After, for_attempts_rule}
use tobiko.Logs.{GrepError, DiggerError, Digger, find_lines, find_new_lines}
use tobiko.Logs.Fresh.{IsFresh, lines_of, find_new_lines-IsFresh}
use tobiko.Logs.Multihost.{
  add_host, HostLines, with_host, join_host, find_host_lines, until_lines, new_lines_body,
  find_new_host_lines,
}

-- Each host has its digger still, and the lines are the new ones of the first host, then those of
-- the next.
pub data Freshened : Dict Digger → Dict Digger → HostLines → Type 0 where
  no_host : Freshened [] [] []
  host :
      (hostname : String) (d d' : Digger) (ls : List String) (ds ds' : Dict Digger)
      (more : HostLines)
      → IsFresh d.found d'.found ls
      → Freshened ds ds' more
      → Freshened ((hostname, d) ∷ ds) ((hostname, d') ∷ ds') (with_host hostname ls ++ more)

module _ {W E : Type 0}
    (grep_lines : String → String → W → Result (GrepError E) (List String) × W) where
  abbrev pub AreFresh : Dict Digger → Result (DiggerError E) HostLines × (Dict Digger × W) → Type 0
  AreFresh ds (ok lines, (ds', w)) = Freshened ds ds' lines
  AreFresh ds (err e, (ds', w)) = Unit

  join_host-AreFresh :
      (hostname : String) (d : Digger) (ds : Dict Digger)
      → (first : Result (DiggerError E) (List String) × (Digger × W))
      → (rest : Result (DiggerError E) HostLines × (Dict Digger × W))
      → IsFresh d.found first.1.0.found (lines_of first.0)
      → AreFresh ds rest
      → AreFresh ((hostname, d) ∷ ds) (join_host hostname ds first rest)
  unfolding join_host
  join_host-AreFresh hostname d ds (err e, (d', w)) rest f a = tt
  join_host-AreFresh hostname d ds (ok ls, (d', w)) (err e, (ds', w')) f a = tt
  join_host-AreFresh hostname d ds (ok ls, (d', w)) (ok more, (ds', w')) f a =
      host hostname d d' ls ds ds' more f a

  -- A search of all hosts for new lines that returns gives the new lines of each host, in the order
  -- of the hosts: of each digger they are none that it had found before, and it has found them
  -- afterwards.
  pub find_host_lines-AreFresh :
      (pattern : Option String) (ds : Dict Digger) (w : W)
      → AreFresh ds (find_host_lines grep_lines pattern true ds w)
  unfolding find_host_lines find_new_lines
  find_host_lines-AreFresh pattern [] w = no_host
  find_host_lines-AreFresh pattern ((hostname, d) ∷ ds) w =
      let first = find_lines (grep_lines hostname) pattern true (d, w) in
      let rest = find_host_lines grep_lines pattern true ds first.1.1 in
      join_host-AreFresh hostname d ds first rest
        (find_new_lines-IsFresh (grep_lines hostname) pattern d w)
        (find_host_lines-AreFresh pattern ds first.1.1)

  abbrev Any : Dict Digger × W → Type 0
  Any s = Unit

  -- The lines of the last round, which are some and new, or the limit of the loop, or an exception.
  abbrev pub HasLines : Result (RetryError (DiggerError E)) HostLines → Dict Digger × W → Type 0
  HasLines (ok lines) (ds', w') = (lines ≢ []) × (ds : Dict Digger) × Freshened ds ds' lines
  HasLines (err e) s = Unit

  new_lines_body-After :
      (a : RetryAttempt) (ds : Dict Digger)
      (r : Result (DiggerError E) HostLines × (Dict Digger × W))
      → AreFresh ds r
      → After Any HasLines a (until_lines grep_lines r.0, r.1)
  unfolding until_lines
  new_lines_body-After a ds (err e, s) h = tt
  new_lines_body-After a ds (ok [], s) h = (tt, λ x lim. tt)
  new_lines_body-After a ds (ok (l ∷ ls), (ds', w)) h = (λ e. ground (arith, e), ds, h)

  -- `MultihostLogFileDigger.find_new_lines` returns no empty list: the lines that it returns are
  -- new ones, host by host, of the diggers as its last round found them.
  pub find_new_host_lines-HasLines :
      (clock : Clock W) (second fuel : ℕ) (pattern : Option String) (given : Options)
      (s : Dict Digger × W)
      → Partial HasLines (find_new_host_lines grep_lines clock second fuel pattern given s)
  unfolding find_new_host_lines new_lines_body
  find_new_host_lines-HasLines clock second fuel pattern given s =
      for_attempts_rule _ _ (new_lines_body grep_lines pattern) Any HasLines
        (λ a s' _ _. new_lines_body-After a s'.0 _ (find_host_lines-AreFresh pattern s'.0 s'.1))
        (λ a s' _. tt) fuel s tt

-- `add_host` leaves the digger that a host has, and gives a host without one a digger that has found
-- nothing; the other hosts are as before.
pub lookup-add_host :
    (pattern : Option String) (hostname other : String) (diggers : Dict Digger)
    → lookup other (add_host pattern hostname diggers) ≡ (
        if str_eq hostname other
        then elim (lookup hostname diggers) [
          | some digger ↦ some digger
          | none ↦ some (record { pattern = pattern; found = [] })
        ]
        else lookup other diggers)
unfolding add_host
lookup-add_host pattern hostname other diggers = ground (
  arith,
  eq_iff hostname other,
  lookup-insert hostname other (record { pattern = pattern; found = [] }) diggers,
)
