-- ===== src/Resume.antt =====
-- Noticing that the machine was suspended. internal/resume/resume.go
use native.Mathlib.Nat.{suc-mul}
use agentic_stats.Prelude.{
  ℕ, ◌+◌, ◌-◌, ◌*◌, ◌≤◌, ◌≡◌, Bool, true, false, inl, inr, List, [], ◌∷◌, arith, ltb, if◌then◌else◌,
  ◌==◌, length, select, Bool-cases,
}

-- Durations and clock readings are nanoseconds.
abbrev pub default_interval : ℕ
default_interval = 10000000000

abbrev pub default_threshold : ℕ
default_threshold = 45000000000

-- Zero selects the default.
unfoldable pub or_default : ℕ → ℕ → ℕ
or_default value default = if value == 0 then default else value

-- The loop: for each tick whether it calls woke, given the clock's reading at it and the last one.
-- A clock that went back gives the gap 0, which like a negative one is under every limit.
unfoldable pub watch_loop : ℕ → ℕ → List ℕ → List Bool
watch_loop limit last [] = []
watch_loop limit last (current ∷ readings) =
    let gap = current - last in
    (if ltb gap limit then false else true) ∷ watch_loop limit current readings

-- `first` is the reading before the loop.
unfoldable pub watch : ℕ → ℕ → ℕ → List ℕ → List Bool
watch interval threshold first readings =
    watch_loop (or_default interval default_interval + or_default threshold default_threshold) first
      readings

abbrev pub wakes : List Bool → ℕ
wakes bs = length (select (λ b. b) bs)

-- The readings never go back, and end at a time.
abbrev pub Rises : ℕ → List ℕ → ℕ → Type 0
Rises last [] end = last ≤ end
Rises last (t ∷ readings) end = (last ≤ t) × Rises t readings end

Rises-le : (last : ℕ) (readings : List ℕ) (end : ℕ) → Rises last readings end → last ≤ end
Rises-le last [] end h = h
Rises-le last (t ∷ readings) end h = let le = Rises-le t readings end h.1 in omega (arith, h.0)

not_ltb : (a b : ℕ) → ltb a b ≡ false → b ≤ a
not_ltb a b h = ground arith

loop-wakes :
    (limit last end : ℕ) (readings : List ℕ)
    → Rises last readings end
    → wakes (watch_loop limit last readings) * limit ≤ end - last
unfolding watch_loop
loop-wakes limit last end [] h = omega arith
loop-wakes limit last end (t ∷ readings) h =
    let le = Rises-le t readings end h.1 in
    let rest = loop-wakes limit t end readings h.1 in
    elim (Bool-cases (ltb (t - last) limit)) [
      | inl e ↦ rw e (omega (arith, h.0))
      | inr e ↦
          let wide : limit ≤ t - last = not_ltb (t - last) limit e in
          let w = wakes (watch_loop limit t readings) in
          rw e (omega (arith, suc-mul w limit, h.0, wide))
    ]

-- On a clock that does not go back, woke is called no more often than the whole time that passed
-- can be filled by gaps of the interval and the threshold together.
pub watch-wakes :
    (interval threshold first end : ℕ) (readings : List ℕ)
    → Rises first readings end
    → wakes (watch interval threshold first readings)
        * (or_default interval default_interval + or_default threshold default_threshold)
      ≤ end - first
unfolding watch
watch-wakes interval threshold first end readings h =
    loop-wakes (or_default interval default_interval + or_default threshold default_threshold) first
      end readings h
