-- ===== src/Process/Examples.antt =====
-- A process that ends when it is asked for the third time, and one that is started again.
use tobiko.Prelude.{
  ℕ, suc, String, true, ◌≡◌, refl, Option, none, some, List, [], ◌∷◌, Result, ok, err, leb,
  if◌then◌else◌,
}
use tobiko.Process.{
  unset, flag, setup_command, Shell, Process, setup_process, read_exit_status, close, Service,
  check_or_start_external_process,
}
use tobiko.Time.{ℤ, pos}
use tobiko.Process.Ending.{IsEnded, close-IsEnded, IsStable, read_exit_status-IsStable}
use tobiko.Process.External.{Checks, IsRestarted, check_or_start_external_process-IsRestarted}

abbrev words : String → List String
words s = s ∷ []

abbrev joined : List String → String
joined command = "ls -l"

namespaced :
    setup_command words joined
      ("/bin/sh" ∷ "-c" ∷ [])
      ("sudo" ∷ [])
      (flag true)
      unset
      unset
      "qrouter"
      ("ls" ∷ "-l" ∷ [])
    ≡ "sudo" ∷ "/sbin/ip" ∷ "netns" ∷ "exec" ∷ "qrouter" ∷ "/bin/sh" ∷ "-c" ∷ "ls -l" ∷ []
unfolding setup_command
namespaced = refl

abbrev status : ℕ → Option ℤ
status n = if leb 3 n then some (pos 0) else none

abbrev quiet : ℕ → Result String Unit × ℕ
quiet n = (ok tt, n)

abbrev shell : Shell ℕ String
shell = record {
  create_process = λ n. (ok tt, 0);
  poll_exit_status = λ n. (ok (status (suc n)), suc n);
  get_exit_status = λ timeout n. (ok (status (suc n)), suc n);
  kill = λ n. (err "no process", 100);
  close_stdin = λ n. (err "broken pipe", n);
  close_stdout = quiet;
  close_stderr = quiet;
  wait = λ timeout n. (ok tt, suc n);
}

close-IsEnded_example : IsEnded shell none (close shell none none 0)
close-IsEnded_example = close-IsEnded shell none none 0

abbrev process : Process ℕ
process = record { exit_status = none; world = 2 }

read_exit_status-IsStable_example : IsStable shell (read_exit_status shell process)
read_exit_status-IsStable_example = read_exit_status-IsStable shell process

-- An exit status of 0 is kept for the next process, which is then taken for ended at once.
kept_status :
    (read_exit_status shell
      (setup_process shell (record { exit_status = some (pos 0); world = 5 })).1).0
    ≡ ok (some (pos 0))
unfolding read_exit_status setup_process
kept_status = refl

abbrev client : Service ℕ String
client = record {
  liveness_function = λ n. (ok true, n);
  stop_function = some quiet;
  check_function = λ n. (err "packets lost", n);
  start_function = λ n. (ok tt, suc n);
  sleep = λ d n. n;
  failure = "Service did not start properly";
}

starts_again : check_or_start_external_process client 1 7 ≡ (err "packets lost", 8)
unfolding check_or_start_external_process
starts_again = refl

check_or_start_external_process-IsRestarted_example :
    (r : Result String Unit) × (before : ℕ) × Checks client 1 7 r before
    × IsRestarted client 1 (r, before) (check_or_start_external_process client 1 7)
check_or_start_external_process-IsRestarted_example =
    check_or_start_external_process-IsRestarted client 1 7
