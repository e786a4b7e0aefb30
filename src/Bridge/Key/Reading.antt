-- ===== src/Bridge/Key/Reading.antt =====
-- What formatKey writes, parseKey reads. internal/bridge/bridge.go
use agentic_stats.Prelude.{
  ℕ, zero, suc, ◌+◌, ◌-◌, ◌*◌, ◌/◌, ◌%◌, ◌^◌, ◌≤◌, ◌<◌, ◌≡◌, ◌≢◌, refl, sym, ap, ◌∙◌, Bool, true,
  false, inl, inr, none, some, List, [], ◌∷◌, ◌++◌, append_assoc, arith, lt→ltb, ◌==◌, length,
  length-append, All, Bool-cases,
}
use agentic_stats.Source.{Bytes}
use agentic_stats.Version.{is_digit, digits_value}
use agentic_stats.Bridge.Key.{
  pos, digits, zeros, padded, bundle_suffix, format_key, cut_last, cut_first, bytes_eq,
  before_suffix, in_range, parse_magnitude, parse_int, key_of_range, key_of_span, key_of_name,
  key_of_path, parse_key,
}

abbrev AreDigits : Bytes → Type 0
AreDigits s = All (λ c. is_digit c ≡ true) s

digits_value_digits : (n : ℕ) (s : Bytes) {v : ℕ} → digits_value n s ≡ some v → AreDigits s
unfolding digits_value
digits_value_digits n [] h = tt
digits_value_digits n (c ∷ s) h = elim (Bool-cases (is_digit c)) [
  | inl e ↦ (e, digits_value_digits (n * 10 + (c - b'0')) s (rw e at (h)))
  | inr e ↦ absurd (ground arith)
]

digits_value-digits :
    (fuel n : ℕ) (acc : Bytes) → n ≤ fuel → digits_value 0 (digits fuel n acc) ≡ digits_value n acc
unfolding digits digits_value is_digit
digits_value-digits zero n acc h = ap (λ k. digits_value k acc) (omega (arith, h))
digits_value-digits (suc fuel) n acc h = elim (Bool-cases (n == 0)) [
  | inl e ↦ rw (e, digits) (ap (λ k. digits_value k acc) (ground arith))
  | inr e ↦
      let whole : n / 10 * 10 + (b'0' + n % 10 - b'0') ≡ n = omega arith in
      rw (e, digits)
        (digits_value-digits fuel (n / 10) ((b'0' + n % 10) ∷ acc) (ground arith)
          ∙ is_next (ground arith)
          ∙ ap (λ k. digits_value k acc) whole)
]
  where
    is_next :
        is_digit (b'0' + n % 10) ≡ true
        → digits_value (n / 10) ((b'0' + n % 10) ∷ acc)
          ≡ digits_value (n / 10 * 10 + (b'0' + n % 10 - b'0')) acc
    is_next k = rw k refl

digits_value-zeros : (k : ℕ) (s : Bytes) → digits_value 0 (zeros k ++ s) ≡ digits_value 0 s
unfolding zeros digits_value is_digit
digits_value-zeros zero s = refl
digits_value-zeros (suc k) s = digits_value-zeros k s

digits_value-padded : (n : ℕ) → digits_value 0 (padded n) ≡ some n
unfolding padded digits_value
digits_value-padded n =
    digits_value-zeros (12 - length (digits n n [])) (digits n n [])
    ∙ digits_value-digits n n [] (omega arith)

padded_ne : (n : ℕ) → padded n ≢ []
unfolding padded zeros
padded_ne n h = go (digits n n []) h
  where
    go : (s : Bytes) → zeros (12 - length s) ++ s ≢ []
    go [] h = cc
    go (c ∷ s) h =
        let k = ap length h in
        let l = length-append (zeros (12 - length (c ∷ s))) (c ∷ s) in omega (arith, k, l)

parse_int_digits :
    (s : Bytes) (n : ℕ)
    → s ≢ []
    → digits_value 0 s ≡ some n
    → n < 2 ^ 63
    → parse_int s ≡ some (pos n)
unfolding parse_int parse_magnitude in_range is_digit
parse_int_digits [] n ne e h = absurd (ne refl)
parse_int_digits (c ∷ s) n ne e h =
    let d = (digits_value_digits 0 (c ∷ s) e).0 in
    let minus : (c == b'-') ≡ false = ground arith in
    let plus : (c == b'+') ≡ false = ground arith in rw (minus, plus, e, lt→ltb n (2 ^ 63) h) refl

digits_lack : (x : ℕ) (s : Bytes) → is_digit x ≡ false → AreDigits s → All (λ c. c ≢ x) s
digits_lack x [] f d = tt
digits_lack x (c ∷ s) f d =
    ((λ e. absurd (clash (is_digit x) (ap is_digit (sym e) ∙ d.0) f)), digits_lack x s f d.1)
  where
    clash : (b : Bool) → b ≡ true → b ≡ false → ⊥
    clash b h k = ground arith

cut_last-lacking : (sep : ℕ) (s : Bytes) → All (λ c. c ≢ sep) s → cut_last sep s ≡ none
unfolding cut_last
cut_last-lacking sep [] h = refl
cut_last-lacking sep (c ∷ s) h = rw (cut_last-lacking sep s h.1) (ground (arith, h.0))

cut_last-append :
    (sep : ℕ) (a s : Bytes) → All (λ c. c ≢ sep) s → cut_last sep (a ++ sep ∷ s) ≡ some (a, s)
unfolding cut_last
cut_last-append sep [] s h = rw (cut_last-lacking sep s h) (ground arith)
cut_last-append sep (c ∷ a) s h = rw (cut_last-append sep a s h) refl

cut_first-append :
    (sep : ℕ) (a s : Bytes) → All (λ c. c ≢ sep) a → cut_first sep (a ++ sep ∷ s) ≡ some (a, s)
unfolding cut_first
cut_first-append sep [] s h = ground arith
cut_first-append sep (c ∷ a) s h = rw (cut_first-append sep a s h.1) (ground (arith, h.0))

bytes_eq-length : (s t : Bytes) → bytes_eq s t ≡ true → length s ≡ length t
bytes_eq-length [] [] h = refl
bytes_eq-length [] (d ∷ t) h = cc
bytes_eq-length (c ∷ s) [] h = cc
bytes_eq-length (c ∷ s) (d ∷ t) h = ap suc (bytes_eq-length s t (ground arith))

pub bytes_eq_refl : (s : Bytes) → bytes_eq s s ≡ true
bytes_eq_refl [] = refl
bytes_eq_refl (c ∷ s) = ground (arith, bytes_eq_refl s)

pub bytes_eq_sound : (s t : Bytes) → bytes_eq s t ≡ true → s ≡ t
bytes_eq_sound [] [] h = refl
bytes_eq_sound [] (d ∷ t) h = cc
bytes_eq_sound (c ∷ s) [] h = cc
bytes_eq_sound (c ∷ s) (d ∷ t) h =
    let same : c ≡ d = ground arith in rw (same, bytes_eq_sound s t (ground arith)) refl

before_suffix-append : (a suffix : Bytes) → before_suffix suffix (a ++ suffix) ≡ some a
unfolding before_suffix
before_suffix-append [] [] = refl
before_suffix-append [] (c ∷ s) = rw (bytes_eq_refl (c ∷ s)) refl
before_suffix-append (c ∷ a) suffix = elim (Bool-cases (bytes_eq (c ∷ a ++ suffix) suffix)) [
  | inl e ↦
      absurd (omega (arith, bytes_eq-length (c ∷ a ++ suffix) suffix e, length-append a suffix))
  | inr e ↦ rw (before_suffix-append a suffix, e) refl
]

All-append {ℓ} : {A : Type 0} (P : A → Type ℓ) (s t : List A) → All P s → All P t → All P (s ++ t)
All-append P [] t h k = k
All-append P (c ∷ s) t h k = (h.0, All-append P s t h.1 k)

-- The name of a bundle gives its origin, whatever bytes it has, and its range back, for numbers
-- that an int64 holds.
pub parse_key-format_key :
    (origin : Bytes) (first last : ℕ)
    → first < 2 ^ 63
    → last < 2 ^ 63
    → parse_key (format_key origin first last)
      ≡ some (record { origin = origin; first = pos first; last = pos last })
unfolding parse_key format_key key_of_path key_of_name key_of_span key_of_range is_digit
parse_key-format_key origin first last f l =
    let df = digits_value_digits 0 (padded first) (digits_value-padded first) in
    let dl = digits_value_digits 0 (padded last) (digits_value-padded last) in
    let name = padded first ++ b'-' ∷ (padded last ++ bundle_suffix) in
    let lack : All (λ c. c ≢ b'/') name =
      All-append (λ c. c ≢ b'/') (padded first) (b'-' ∷ (padded last ++ bundle_suffix))
        (digits_lack b'/' (padded first) refl df)
        (
          omega arith,
          All-append (λ c. c ≢ b'/') (padded last) bundle_suffix
              (digits_lack b'/' (padded last) refl dl)
              (
                omega arith,
                (
                  omega arith,
                  (omega arith, (omega arith, (omega arith, (omega arith, (omega arith, tt))))),
                ),
              ),
        ) in
    let named : before_suffix bundle_suffix name ≡ some (padded first ++ b'-' ∷ padded last) =
      ap (before_suffix bundle_suffix)
        (sym (append_assoc (padded first) (b'-' ∷ padded last) bundle_suffix))
      ∙ before_suffix-append (padded first ++ b'-' ∷ padded last) bundle_suffix in
    rw
      (
        cut_last-append b'/' origin name lack,
        named,
        cut_first-append b'-' (padded first) (padded last)
            (digits_lack b'-' (padded first) refl df),
        parse_int_digits (padded first) first (padded_ne first) (digits_value-padded first) f,
        parse_int_digits (padded last) last (padded_ne last) (digits_value-padded last) l,
      )
      refl
