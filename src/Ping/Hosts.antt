-- ===== src/Ping/Hosts.antt =====
-- `ping_hosts` and `wait_for_ping_hosts` of tobiko/shell/ping/_ping.py. `ping` gives the received
-- messages of a host or raises; `is_ping_error` tells a PingError from the other exceptions.
use mathlib.Core.List.{Perm, perm_middle}
use mathlib.Core.List.Perm
use tobiko.Prelude.{
  ℕ, ◌≡◌, Bool, true, false, not, ◌&&◌, none, List, [], ◌∷◌, ◌++◌, Result, ok, err, ltb, arith,
  if◌then◌else◌, Result-cases, inl, inr, sym, subst,
}
use tobiko.Retry.{RetryError, raised, count_limit, time_limit, Retry, is_last}
use tobiko.Retry.Loop.{finish, again, throw, Body}

-- What leaves the wait: another exception of `ping`, or the hosts that are left.
pub data HostsError (H E : Type 0) : Type 0 where
  ping_raised : E → HostsError H E
  reachable_hosts : List H → HostsError H E
  unreachable_hosts : List H → HostsError H E

abbrev is_nil : {A : Type 0} → List A → Bool
is_nil [] = true
is_nil (x ∷ xs) = false

module _ {H S E : Type 0} (is_ping_error : E → Bool) (ping : H → S → Result E ℕ × S) where
  answered : Result E ℕ → Result E Bool
  answered (ok received) = ok (ltb 0 received)
  answered (err e) = if is_ping_error e then ok false else err e

  unfoldable pub ping_hosts : List H → S → Result E (List H × List H) × S
  unfolding answered
  ping_hosts [] s = (ok ([], []), s)
  ping_hosts (host ∷ hosts) s =
      let (result, s') = ping host s in
      let (rest, s'') = ping_hosts hosts s' in
      elim (answered result) [
        | err e ↦ (err e, s')
        | ok reached ↦ elim rest [
          | err e ↦ (err e, s'')
          | ok found ↦
              (ok (if reached then (host ∷ found.0, found.1) else (found.0, host ∷ found.1)), s'')
        ]
      ]

  -- The variable `hosts` of the loop stands beside the state.
  unfoldable pub wait_body : Bool → Body (List H × S) (HostsError H E) (Unit {0})
  unfolding ping_hosts
  wait_body check_unreachable attempt (hosts, s) =
      let (result, s') = ping_hosts hosts s in
      elim result [
        | err e ↦ (throw (raised (ping_raised e)), (hosts, s'))
        | ok found ↦
            let hosts' = if check_unreachable then found.0 else found.1 in
            let error =
              if check_unreachable then reachable_hosts hosts' else unreachable_hosts hosts' in
            if is_nil hosts'
            then (finish tt, (hosts', s'))
            else if is_last {E = HostsError H E} none attempt
            then (throw (raised error), (hosts', s'))
            else (again, (hosts', s'))
      ]

  share_out :
      (host : H) (hosts : List H) (reached : Bool) (found : List H × List H)
      → Perm (found.0 ++ found.1) hosts
      → let all : List H × List H =
          if reached then (host ∷ found.0, found.1) else (found.0, host ∷ found.1) in
        Perm (all.0 ++ all.1) (host ∷ hosts)
  share_out host hosts true found p = Perm.cons host p
  share_out host hosts false found p = Perm.trans (perm_middle found.0 found.1) (Perm.cons host p)

  ping_hosts-cons :
      (host : H) (hosts : List H) (s : S) (found : List H × List H)
      → (ping_hosts (host ∷ hosts) s).0 ≡ ok found
      → (reached : Bool) × (rest : List H × List H) × ((ping_hosts hosts (ping host s).1).0
          ≡ ok rest)
        × (found ≡ (if reached then (host ∷ rest.0, rest.1) else (rest.0, host ∷ rest.1)))
  unfolding ping_hosts
  ping_hosts-cons host hosts s found h = elim (Result-cases (answered (ping host s).0)) [
    | inr (e, q) ↦ absurd (ground arith)
    | inl (reached, q) ↦ elim (Result-cases (ping_hosts hosts (ping host s).1).0) [
      | inr (e, q') ↦ absurd (ground arith)
      | inl (rest, q') ↦ (reached, rest, q', ground arith)
    ]
  ]

  ping_hosts-nil :
      (s : S) (found : List H × List H) → (ping_hosts [] s).0 ≡ ok found → ([], []) ≡ found
  unfolding ping_hosts
  ping_hosts-nil s found h = ground arith

  -- The hosts that answered and those that did not share out the hosts: none is lost, and none is
  -- added.
  pub ping_hosts-perm :
      (hosts : List H) (s : S) (found : List H × List H)
      → (ping_hosts hosts s).0 ≡ ok found
      → Perm (found.0 ++ found.1) hosts
  unfolding ping_hosts
  ping_hosts-perm [] s found h =
      subst {A = List H × List H} (λ f. Perm (f.0 ++ f.1) []) (ping_hosts-nil s found h) Perm.rfl
  ping_hosts-perm (host ∷ hosts) s found h =
      let (reached, rest, q, e) = ping_hosts-cons host hosts s found h in
      subst {A = List H × List H} (λ f. Perm (f.0 ++ f.1) (host ∷ hosts)) (sym e)
        (share_out host hosts reached rest (ping_hosts-perm hosts (ping host s).1 rest q))

  -- How the wait ends, by the hosts that are left.
  abbrev pub is_decided : Bool → Result (RetryError (HostsError H E)) (Unit {0}) → List H → Bool
  is_decided check_unreachable (ok x) left = is_nil left
  is_decided check_unreachable (err (raised (ping_raised e))) left = not (is_ping_error e)
  is_decided check_unreachable (err (raised (reachable_hosts hosts))) left =
      check_unreachable && not (is_nil left)
  is_decided check_unreachable (err (raised (unreachable_hosts hosts))) left =
      not check_unreachable && not (is_nil left)
  is_decided check_unreachable (err (count_limit a)) left = false
  is_decided check_unreachable (err (time_limit a)) left = false
