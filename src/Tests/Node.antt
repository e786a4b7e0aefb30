-- ===== src/Tests/Node.antt =====
-- internal/supervise, internal/mesh/health.go
use agentic_stats.Prelude.{
  List, ℕ, ◌+◌, ◌*◌, ◌-◌, ◌≤◌, ◌≡◌, refl, true, false, inr, ◌↔◌, none, some, [], ◌∷◌, arith, String,
  All,
}
use agentic_stats.Supervise.{
  Round, failed, panicked, finished, running, completed, wait_for, decide, after_wait, run_loop,
  run,
}
use agentic_stats.Supervise.Schedule.{IsDelay, wait_after, run-IsDelay, run-running}
use agentic_stats.Store.Query.{VersionVector, seq_at}
use agentic_stats.Resume.{
  or_default, default_interval, default_threshold, watch, watch_loop, wakes, watch-wakes,
}
use agentic_stats.Store.Peers.{Rows, first_heard}
use agentic_stats.Mesh.Health.{Env, Peer, lag, lag_zero}

abbrev crash : Round
crash = record {
  ending = panicked "index out of range";
  ran = 5;
  jitter = 500000000;
  done_after = false;
  done_waiting = false;
}

abbrev long_crash : Round
long_crash = record crash { ending = failed "no route"; ran = 60000000001 }

run-IsDelay_example : All IsDelay ((run (crash ∷ crash ∷ [])).0)
unfolding wait_for
run-IsDelay_example = run-IsDelay (crash ∷ crash ∷ []) (omega arith, (omega arith, tt))

run-running_example : (run (crash ∷ crash ∷ [])).1 ≡ running (wait_after 2)
run-running_example =
    run-running (crash ∷ crash ∷ [])
      (
        ("index out of range", inr refl, refl, refl),
        (("index out of range", inr refl, refl, refl), tt),
      )
      (omega arith, (omega arith, tt))

-- A third restart waits four seconds and the jitter.
delays :
    (run (crash ∷ crash ∷ crash ∷ record crash { ending = finished } ∷ []))
    ≡ (1500000000 ∷ 2500000000 ∷ 4500000000 ∷ [], completed)
unfolding run run_loop wait_for decide after_wait
delays = refl

abbrev ours : VersionVector
ours = ("a", 3) ∷ ("b", 5) ∷ []

abbrev theirs : VersionVector
theirs = ("b", 5) ∷ ("a", 3) ∷ []

abbrev env : Env
env = record {
  parse_vector = λ s. some theirs;
  parse_time = λ s. some 100;
  split_host = λ s. none;
  now = 3600000000101;
  names = λ h. "";
}

lag_zero_example : (lag env ours "{}" ≡ (0, 0)) ↔ ((o : String) → seq_at ours o ≡ seq_at theirs o)
unfolding seq_at
lag_zero_example = lag_zero env ours theirs "{}" (refl, (refl, tt)) (refl, (refl, tt)) refl refl

abbrev laptop : Peer
laptop = record {
  id = "b";
  hostname = "laptop";
  version = "v1.0.0";
  addrs = "10.0.0.2:7777" ∷ [];
  is_static = false;
  last_seen = "2026-01-01T00:00:00Z";
  last_converged = "2026-01-01T00:00:00Z";
  last_error = "";
  last_vector = "{}";
}

-- Five ticks of ten seconds, and a sleep of an hour before the fourth.
abbrev ticks : List ℕ
ticks = 10000000000 ∷ 20000000000 ∷ 30000000000 ∷ 3640000000000 ∷ 3650000000000 ∷ []

woken : watch 0 0 0 ticks ≡ false ∷ false ∷ false ∷ true ∷ false ∷ []
unfolding watch watch_loop or_default
woken = refl

watch-wakes_example :
    wakes (watch 0 0 0 ticks) * (or_default 0 default_interval + or_default 0 default_threshold)
    ≤ 3650000000000 - 0
watch-wakes_example =
    watch-wakes 0 0 0 3650000000000 ticks
      (omega arith, (omega arith, (omega arith, (omega arith, (omega arith, omega arith)))))

abbrev known : Rows
known = record (first_heard "b" "t0") { hostname = some "laptop"; last_converged = some "t0" } ∷ []
