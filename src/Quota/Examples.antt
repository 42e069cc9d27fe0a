-- ===== src/Quota/Examples.antt =====
-- A project with ten servers in use of a limit of ten, where one more is required.
use tobiko.Prelude.{ℕ, ◌+◌, ◌≡◌, ◌<◌, refl, String, none, some, [], ◌∷◌, ok, arith}
use tobiko.Prelude.Dict.{lookup}
use tobiko.Time.{pos}
use tobiko.Quota.{QuotaSet, QuotaService, get_quota_limits_increase, nova_over}
use tobiko.Quota.Ensuring.{ensure_neutron_quota_limits, ensure_nova_quota_limits}
use tobiko.Quota.Fitting.{Checked, ensure_nova_quota_limits-Checked}
use tobiko.Quota.Settling.{with_limit}
use tobiko.Quota.Converging.{IsFaithful, ensure_quota_limits_converge}

record World : Type 0 where
  now : ℕ
  quotas : QuotaSet

abbrev service : QuotaService World String
service = record {
  clock = record { time = λ w. (w.now, w); sleep = λ d w. record w { now = w.now + d } };
  get_quota_set = λ user w. (ok w.quotas, w);
  set_quota_set = λ user limits w.
      (ok tt, record w { quotas = λ name. with_limit (lookup name limits) (w.quotas name) });
}

abbrev needed : String → ℕ
needed name = 1

abbrev before : World
before = record {
  now = 0;
  quotas = λ name. some (record { limit = pos 10; in_use = pos 10; reserved = pos 0 });
}

faithful : IsFaithful service none (λ w. w.quotas)
faithful = record {
  reads = λ w. refl;
  keeps = λ w. refl;
  sets = λ limits w. refl;
  updates = λ limits w name. refl;
  waits = λ d w. refl;
  times = λ w. refl;
}

ensure_quota_limits_converge_example :
    ((ensure_neutron_quota_limits service needed 1000 2 none none ("servers" ∷ []) before).0
      ≡ ok tt)
    × ((ensure_nova_quota_limits service needed 1000 2 none none none ("servers" ∷ []) before).0
        ≡ ok tt)
ensure_quota_limits_converge_example =
    ensure_quota_limits_converge service needed (λ w. w.quotas) faithful 1000 0 none none
      ("servers" ∷ []) before (omega arith) ((λ e. ground (arith, e)), tt)

ensure_nova_quota_limits-Checked_example :
    Checked service needed
      (λ required limit. required < limit)
      (some "demo")
      ("servers" ∷ [])
      (ensure_nova_quota_limits service needed 1000 5
        (some "demo")
        none
        none
        ("servers" ∷ [])
        before)
ensure_nova_quota_limits-Checked_example =
    ensure_nova_quota_limits-Checked service needed 1000 5 none none (some "demo") ("servers" ∷ [])
      before

-- After the tenth round Nova's limit is set to what is required, which is not enough for it.
no_room :
    get_quota_limits_increase nova_over needed 0 {E = String}
      (λ name. some (record { limit = pos 11; in_use = pos 10; reserved = pos 0 }))
      ("servers" ∷ [])
    ≡ ok (("servers", (11, 11)) ∷ [])
unfolding get_quota_limits_increase
no_room = refl
