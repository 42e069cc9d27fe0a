-- ===== src/Ping/Samples.antt =====
-- Errors of the ping command.
use tobiko.Prelude.{◌≡◌, refl, true, false, none, some, [], ◌∷◌}
use tobiko.Ping.Errors.{Texts, raised, execute_ping, is_unbound}

-- Texts with one line and no prefix.
abbrev texts : Texts
texts = record {
  splitlines = λ s. s ∷ [];
  strip = λ s. s;
  starts_with = λ s t. false;
  ends_with = λ s t. false;
  after = λ s t. t;
  before = λ s t. t;
  without_quotes = λ s. s;
  last_word = λ s. some s;
}

-- A check of an execution that raised an exception with a standard error.
timeout_unbound : is_unbound texts (execute_ping texts true (raised none (some "timeout"))) ≡ true
unfolding execute_ping
timeout_unbound = refl
