-- ===== src/Mesh/Dial/Backoff.antt =====
-- How long a failing address is left alone. internal/mesh/mesh.go
use agentic_stats.Prelude.{
  ℕ, ◌+◌, ◌≤◌, ◌≡◌, refl, sym, ap, ◌∙◌, true, false, inl, inr, Option, none, some, List, [], ◌∷◌,
  arith, String, str_eq, eq_iff, if◌then◌else◌, Bool-cases,
}
use agentic_stats.Mesh.Dial.{
  Backoff, dial_interval, until_of, clear_backoff, expires_after, in_backoff, wait_after, Attempt,
  Observed, dialled, passed, resumed, noted, penalize, Target, Sweeping, dial_and_sync, sweep_addrs,
  sweep, Event, swept, woke, seen, Node, nudge, wake, first_sighting, discovered, step, run,
  new_node,
}

-- The clock does not go back between the check of an address and its penalty.
abbrev pub Forward : (ℕ → Attempt) → Type 0
Forward env = (i : ℕ) → (env i).checked ≤ (env i).asked

-- Until when an address is to be left alone, by what was observed: where the last dial of it since
-- the machine last woke failed, one dial interval and the jitter after that failure.
unfoldable pub left_alone : (ℕ → Attempt) → List Observed → String → Option ℕ
left_alone env [] addr = none
left_alone env (resumed ∷ log) addr = none
left_alone env (passed a i ∷ log) addr = left_alone env log addr
left_alone env (dialled a i ∷ log) addr =
    let before = left_alone env log addr in
    if str_eq a addr
    then (if (env i).connects then none else some ((env i).set + (dial_interval + (env i).jitter)))
    else before

-- An address that was looked at was passed over where it was to be left alone, and dialled
-- otherwise.
abbrev pub IsPatient : (ℕ → Attempt) → List Observed → Type 0
IsPatient env [] = Unit
IsPatient env (resumed ∷ log) = IsPatient env log
IsPatient env (passed a i ∷ log) =
    (expires_after (env i).checked (left_alone env log a) ≡ true) × IsPatient env log
IsPatient env (dialled a i ∷ log) =
    (expires_after (env i).checked (left_alone env log a) ≡ false) × IsPatient env log

-- The table is what the observations say, and the dials were patient.
abbrev pub IsFlat : (ℕ → Attempt) → Sweeping → Type 0
IsFlat env s =
    ((addr : String) → until_of s.backoff addr ≡ left_alone env s.log addr) × IsPatient env s.log

-- What a sweep penalizes was not left alone, so nothing of its last wait is left to be doubled.
wait_after_sweep :
    (now asked : ℕ) (until : Option ℕ)
    → expires_after now until ≡ false
    → now ≤ asked
    → wait_after asked until ≡ dial_interval
unfolding expires_after wait_after
wait_after_sweep now asked none e h = refl
wait_after_sweep now asked (some until) e h = ground arith

until_of-clear_backoff :
    (gone addr : String) (b : Backoff)
    → until_of (clear_backoff gone b) addr ≡ (if str_eq gone addr then none else until_of b addr)
unfolding until_of clear_backoff
until_of-clear_backoff gone addr [] = ground arith
until_of-clear_backoff gone addr (e ∷ b) = ground (
  arith,
  until_of-clear_backoff gone addr b,
  eq_iff (e.0) gone,
  eq_iff (e.0) addr,
  eq_iff gone addr,
)

dial-IsFlat :
    (env : ℕ → Attempt) (addr : String) (s : Sweeping)
    → Forward env
    → in_backoff (env s.looked).checked addr s.backoff ≡ false
    → IsFlat env s
    → IsFlat env (dial_and_sync (env s.looked) addr (noted dialled addr s))
unfolding dial_and_sync noted penalize in_backoff left_alone until_of
dial-IsFlat env addr s fw q (h, p) =
    let a = env s.looked in
    let w = wait_after_sweep a.checked a.asked (until_of s.backoff addr) q (fw s.looked) in
    (
      (λ x. elim (Bool-cases a.connects) [
        | inl c ↦ rw (c, until_of-clear_backoff addr x s.backoff, h x) refl
        | inr c ↦
            rw (c, w)
              (elim (Bool-cases (str_eq addr x)) [
                | inl e ↦ rw e refl
                | inr e ↦ rw (e, until_of-clear_backoff addr x s.backoff, e, h x) refl
              ])
      ]),
      (ap (expires_after a.checked) (sym (h addr)) ∙ q, p),
    )

passed-IsFlat :
    (env : ℕ → Attempt) (addr : String) (s : Sweeping)
    → in_backoff (env s.looked).checked addr s.backoff ≡ true
    → IsFlat env s
    → IsFlat env (noted passed addr s)
unfolding noted in_backoff left_alone
passed-IsFlat env addr s q (h, p) =
    (h, (ap (expires_after (env s.looked).checked) (sym (h addr)) ∙ q, p))

sweep_addrs-IsFlat :
    (env : ℕ → Attempt) (addrs : List String) (s : Sweeping)
    → Forward env
    → IsFlat env s
    → IsFlat env (sweep_addrs env addrs s)
unfolding sweep_addrs
sweep_addrs-IsFlat env [] s fw h = h
sweep_addrs-IsFlat env (addr ∷ addrs) s fw h =
    elim (Bool-cases (in_backoff (env s.looked).checked addr s.backoff)) [
      | inl q ↦
          rw (q, sweep_addrs)
            (sweep_addrs-IsFlat env addrs (noted passed addr s) fw (passed-IsFlat env addr s q h))
      | inr q ↦
          let d = dial-IsFlat env addr s fw q h in
          elim (Bool-cases (env s.looked).connects) [
            | inl c ↦ rw (q, c, sweep_addrs) d
            | inr c ↦ rw (q, c, sweep_addrs) (sweep_addrs-IsFlat env addrs _ fw d)
          ]
    ]

sweep-IsFlat :
    (env : ℕ → Attempt) (node_id : String) (peers : List Target) (s : Sweeping)
    → Forward env
    → IsFlat env s
    → IsFlat env (sweep env node_id peers s)
unfolding sweep
sweep-IsFlat env node_id [] s fw h = h
sweep-IsFlat env node_id (p ∷ peers) s fw h = elim (Bool-cases (str_eq p.id node_id)) [
  | inl q ↦ rw (q, sweep) (sweep-IsFlat env node_id peers s fw h)
  | inr q ↦
      rw (q, sweep)
        (sweep-IsFlat env node_id peers (sweep_addrs env p.addrs s) fw
          (sweep_addrs-IsFlat env p.addrs s fw h))
]

step-IsFlat :
    (env : ℕ → Attempt) (node_id : String) (e : Event) (n : Node)
    → Forward env
    → IsFlat env n.dialling
    → IsFlat env (step env node_id e n).dialling
unfolding step wake nudge discovered until_of left_alone
step-IsFlat env node_id (swept peers) n fw h = sweep-IsFlat env node_id peers n.dialling fw h
step-IsFlat env node_id woke n fw h = ((λ addr. refl), h.1)
step-IsFlat env node_id (seen id true) n fw h = elim (Bool-cases (first_sighting id n)) [
  | inl q ↦ rw q h
  | inr q ↦ rw q h
]
step-IsFlat env node_id (seen id false) n fw h = h

-- Whatever sweeps, resumes and sightings a node goes through, on a clock that does not go back
-- between the check of an address and its penalty: an address is in the backoff exactly where the
-- last dial of it since the last resume failed, until one dial interval and the jitter after that
-- failure, so the wait is never doubled, however often the address failed; and an address that was
-- looked at was passed over before that time and dialled otherwise.
pub run-IsFlat :
    (env : ℕ → Attempt) (node_id : String) (es : List Event)
    → Forward env
    → IsFlat env (run env node_id es new_node).dialling
unfolding run until_of left_alone
run-IsFlat env node_id es fw = go es new_node ((λ addr. refl), tt)
  where
    go :
        (es : List Event) (n : Node)
        → IsFlat env n.dialling
        → IsFlat env (run env node_id es n).dialling
    go [] n h = h
    go (e ∷ es) n h = go es (step env node_id e n) (step-IsFlat env node_id e n fw h)
