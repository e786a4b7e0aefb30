-- ===== src/Supervise/Schedule.antt =====
-- The delays between restarts. internal/supervise/supervise.go
use agentic_stats.Prelude.{
  ℕ, zero, suc, ◌+◌, ◌*◌, ◌/◌, ◌≤◌, ◌<◌, ◌≡◌, refl, ap, Bool, true, false, inl, inr, ◌⊎◌, ◌∙◌,
  ltb-eq_false, lt→ltb, List, [], ◌∷◌, arith, String, min, length, All,
}
use agentic_stats.Supervise.{
  Ending, finished, permanent, failed, panicked, Round, Verdict, running, min_backoff, max_backoff,
  wait_for, after_wait, decide, run_loop, run,
}

-- rand.Int64N(int64(wait/2) + 1) is at most half of a wait of no more than the limit.
abbrev pub Drawn : ℕ → List Round → Type 0
Drawn wait [] = Unit
Drawn wait (r ∷ rounds) =
    (r.jitter ≤ wait_for wait r.ran / 2) × Drawn (min (wait_for wait r.ran * 2) max_backoff) rounds

abbrev pub IsDelay : ℕ → Type 0
IsDelay d = (min_backoff ≤ d) × (d ≤ max_backoff + max_backoff / 2)

wait_for-bounds :
    (wait ran : ℕ)
    → min_backoff ≤ wait
    → wait ≤ max_backoff
    → (min_backoff ≤ wait_for wait ran) × (wait_for wait ran ≤ max_backoff)
unfolding wait_for
wait_for-bounds wait ran h k = ground arith

decide-IsDelay :
    (done : Bool) (e : Ending) (again : List ℕ × Verdict)
    → All IsDelay (again.0)
    → All IsDelay ((decide done e again).0)
unfolding decide
decide-IsDelay true e again h = tt
decide-IsDelay false finished again h = tt
decide-IsDelay false (permanent e) again h = tt
decide-IsDelay false (failed e) again h = h
decide-IsDelay false (panicked e) again h = h

after_wait-IsDelay :
    (done : Bool) (delay : ℕ) (rest : List ℕ × Verdict)
    → IsDelay delay
    → All IsDelay (rest.0)
    → All IsDelay ((after_wait done delay rest).0)
unfolding after_wait
after_wait-IsDelay true delay rest h k = (h, tt)
after_wait-IsDelay false delay rest h k = (h, k)

loop-IsDelay :
    (wait : ℕ) (rounds : List Round)
    → min_backoff ≤ wait
    → wait ≤ max_backoff
    → Drawn wait rounds
    → All IsDelay ((run_loop wait rounds).0)
unfolding run_loop
loop-IsDelay wait [] h k d = tt
loop-IsDelay wait (r ∷ rounds) h k d =
    let (low, high) = wait_for-bounds wait r.ran h k in
    let base = wait_for wait r.ran in
    let drawn = d.0 in
    decide-IsDelay r.done_after r.ending _ (
      after_wait-IsDelay r.done_waiting (base + r.jitter) _ (omega arith, omega arith)
        (loop-IsDelay (min (base * 2) max_backoff) rounds (omega arith) (omega arith) d.1))

-- Every delay that is waited out is between one second and a minute and a half, with a jitter of at
-- most half of the wait, as the code draws it.
pub run-IsDelay : (rounds : List Round) → Drawn min_backoff rounds → All IsDelay ((run rounds).0)
unfolding run
run-IsDelay rounds d = loop-IsDelay min_backoff rounds (omega arith) (omega arith) d

-- An attempt that failed in an ordinary way or panicked, with the context not done.
abbrev pub IsFailing : Round → Type 0
IsFailing r =
    (e : String) × ((r.ending ≡ failed e) ⊎ (r.ending ≡ panicked e))
    × (r.done_after ≡ false)
    × (r.done_waiting ≡ false)

-- One after another, the wait in front of the n-th restart, where none ran longer than a minute.
abbrev pub wait_after : ℕ → ℕ
wait_after zero = min_backoff
wait_after (suc n) = min (wait_after n * 2) max_backoff

fail_on :
    (wait : ℕ) (r : Round) (rounds : List Round)
    → IsFailing r
    → run_loop wait (r ∷ rounds) ≡ (
      (wait_for wait r.ran + r.jitter)
          ∷ (run_loop (min (wait_for wait r.ran * 2) max_backoff) rounds).0,
      (run_loop (min (wait_for wait r.ran * 2) max_backoff) rounds).1,
    )
unfolding run_loop decide after_wait
fail_on wait r rounds (e, inl k, a, w) = rw (k, a, w) refl
fail_on wait r rounds (e, inr k, a, w) = rw (k, a, w) refl

loop-running :
    (n : ℕ) (rounds : List Round)
    → All IsFailing rounds
    → All (λ r. r.ran ≤ max_backoff) rounds
    → (run_loop (wait_after n) rounds).1 ≡ running (wait_after (n + length rounds))
unfolding run_loop wait_for
loop-running n [] h k = ap (λ m. running (wait_after m)) (omega arith)
loop-running n (r ∷ rounds) h k =
    let same : wait_for (wait_after n) r.ran ≡ wait_after n =
      rw (ltb-eq_false max_backoff r.ran k.0) refl in
    ap (λ p. p.1) (fail_on (wait_after n) r rounds h.0)
    ∙ ap (λ w. (run_loop (min (w * 2) max_backoff) rounds).1) same
    ∙ loop-running (suc n) rounds h.1 k.1
    ∙ ap (λ m. running (wait_after m)) (omega arith)

-- However often a subsystem fails or panics, if it never ran longer than a minute and the context
-- is not done, it is still kept running, and the next wait is one second doubled as often, up to a
-- minute.
pub run-running :
    (rounds : List Round)
    → All IsFailing rounds
    → All (λ r. r.ran ≤ max_backoff) rounds
    → (run rounds).1 ≡ running (wait_after (length rounds))
unfolding run
run-running rounds h k = loop-running 0 rounds h k ∙ ap (λ m. running (wait_after m)) (omega arith)

-- A failure after more than a minute of running starts the schedule again at one second, whatever
-- the wait was.
pub loop-reset :
    (wait : ℕ) (r : Round) (rounds : List Round)
    → IsFailing r
    → max_backoff < r.ran
    → run_loop wait (r ∷ rounds) ≡ run (r ∷ rounds)
unfolding run run_loop wait_for
loop-reset wait r rounds f h = rw (lt→ltb max_backoff r.ran h) refl
