-- ===== src/Supervise.antt =====
-- Restarting a subsystem that failed. internal/supervise/supervise.go
pub mod Schedule
use agentic_stats.Prelude.{
  ℕ, ◌+◌, ◌*◌, ◌/◌, Bool, true, false, List, [], ◌∷◌, String, min, if◌then◌else◌, ltb,
}

-- Durations are nanoseconds.
abbrev pub min_backoff : ℕ
min_backoff = 1000000000

abbrev pub max_backoff : ℕ
max_backoff = 60000000000

-- How one attempt ended. `panicked` is what attempt makes of a panic.
pub data Ending : Type 0 where
  finished : Ending
  permanent : String → Ending
  failed : String → Ending
  panicked : String → Ending

-- One round: how the attempt ended and how long it ran, what rand.Int64N gave, and whether the
-- context was done after the attempt and during the wait.
pub record Round : Type 0 where
  pub ending : Ending
  pub ran : ℕ
  pub jitter : ℕ
  pub done_after : Bool
  pub done_waiting : Bool

-- What Run returns, or that it still runs; and the delays it has waited out.
pub data Verdict : Type 0 where
  cancelled : Verdict
  completed : Verdict
  gave_up : String → Verdict
  running : ℕ → Verdict

-- The wait after a failure, before the jitter.
unfoldable pub wait_for : ℕ → ℕ → ℕ
wait_for wait ran = if ltb max_backoff ran then min_backoff else wait

-- The select: the wait is served, or the context ends it.
unfoldable pub after_wait : Bool → ℕ → List ℕ × Verdict → List ℕ × Verdict
after_wait true delay rest = (delay ∷ [], cancelled)
after_wait false delay rest = (delay ∷ rest.0, rest.1)

-- The switch after an attempt; the last argument is what a restart leads to.
unfoldable pub decide : Bool → Ending → List ℕ × Verdict → List ℕ × Verdict
decide true e again = ([], cancelled)
decide false finished again = ([], completed)
decide false (permanent e) again = ([], gave_up e)
decide false (failed e) again = again
decide false (panicked e) again = again

-- The loop, round by round: `running wait` is the state in front of the next attempt.
unfoldable pub run_loop : ℕ → List Round → List ℕ × Verdict
run_loop wait [] = ([], running wait)
run_loop wait (r ∷ rounds) =
    let base = wait_for wait r.ran in
    let rest = run_loop (min (base * 2) max_backoff) rounds in
    decide r.done_after r.ending (after_wait r.done_waiting (base + r.jitter) rest)

unfoldable pub run : List Round → List ℕ × Verdict
run rounds = run_loop min_backoff rounds
