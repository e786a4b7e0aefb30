-- ===== src/Prelude/Member.antt =====
-- Membership in a list, as a sum of equations, and what Boolean tests say of it.
use mathlib.Core.Path.{◌≡◌, refl, sym, ap, subst, ◌∙◌}
use mathlib.Core.Logic.{◌⊎◌, inl, inr}
use mathlib.Core.Bool.{Bool, true, false}
use mathlib.Core.List.{List, [], ◌∷◌, ◌++◌}
use agentic_stats.Prelude.Tests.{Bool-cases}
use agentic_stats.Prelude.Lists.{any, select, All}

abbrev pub In : {A : Type 0} → A → List A → Type 0
In x [] = ⊥
In x (y ∷ ys) = (x ≡ y) ⊎ In x ys

module _ {A : Type 0} where
  pub In-append-left : (x : A) (xs ys : List A) → In x xs → In x (xs ++ ys)
  In-append-left x (y ∷ xs) ys (inl e) = inl e
  In-append-left x (y ∷ xs) ys (inr h) = inr (In-append-left x xs ys h)
  In-append-left x [] ys h = absurd h

  pub In-append-right : (x : A) (xs ys : List A) → In x ys → In x (xs ++ ys)
  In-append-right x [] ys h = h
  In-append-right x (y ∷ xs) ys h = inr (In-append-right x xs ys h)

  pub In-append : (x : A) (xs ys : List A) → In x (xs ++ ys) → In x xs ⊎ In x ys
  In-append x [] ys h = inr h
  In-append x (y ∷ xs) ys (inl e) = inl (inl e)
  In-append x (y ∷ xs) ys (inr h) = elim (In-append x xs ys h) [
    | inl k ↦ inl (inr k)
    | inr k ↦ inr k
  ]

  pub any-In : (f : A → Bool) (xs : List A) (x : A) → In x xs → f x ≡ true → any f xs ≡ true
  any-In f [] x h k = absurd h
  any-In f (y ∷ xs) x (inl e) k = rw (← e, k) refl
  any-In f (y ∷ xs) x (inr h) k = elim (Bool-cases (f y)) [
    | inl e ↦ rw e refl
    | inr e ↦ rw e (any-In f xs x h k)
  ]

  pub any_some : (f : A → Bool) (xs : List A) → any f xs ≡ true → (x : A) × In x xs × (f x ≡ true)
  any_some f [] h = cc
  any_some f (y ∷ xs) h = elim (Bool-cases (f y)) [
    | inl e ↦ (y, inl refl, e)
    | inr e ↦ let (x, i, k) = any_some f xs (rw e at (h)) in (x, inr i, k)
  ]

  pub In-select : (f : A → Bool) (xs : List A) (x : A) → In x (select f xs) → In x xs × (f x ≡ true)
  In-select f [] x h = absurd h
  In-select f (y ∷ xs) x h = elim (Bool-cases (f y)) [
    | inl e ↦ elim (subst (λ l. In x l) (kept e) h) [
      | inl q ↦ (inl q, ap f q ∙ e)
      | inr q ↦ let (i, k) = In-select f xs x q in (inr i, k)
    ]
    | inr e ↦ let (i, k) = In-select f xs x (subst (λ l. In x l) (dropped e) h) in (inr i, k)
  ]
    where
      kept : f y ≡ true → select f (y ∷ xs) ≡ y ∷ select f xs
      kept e = rw e refl

      dropped : f y ≡ false → select f (y ∷ xs) ≡ select f xs
      dropped e = rw e refl

  pub select-In : (f : A → Bool) (xs : List A) (x : A) → In x xs → f x ≡ true → In x (select f xs)
  select-In f [] x h k = absurd h
  select-In f (y ∷ xs) x (inl e) k = rw (ap f (sym e) ∙ k) (inl e)
  select-In f (y ∷ xs) x (inr h) k = elim (Bool-cases (f y)) [
    | inl e ↦ rw e (inr (select-In f xs x h k))
    | inr e ↦ rw e (select-In f xs x h k)
  ]

  pub All-In {κ} : (P : A → Type κ) (xs : List A) (x : A) → All P xs → In x xs → P x
  All-In P [] x h i = absurd i
  All-In P (y ∷ xs) x h (inl e) = subst P (sym e) h.0
  All-In P (y ∷ xs) x h (inr i) = All-In P xs x h.1 i

  pub In-All {κ} : (P : A → Type κ) (xs : List A) → ((x : A) → In x xs → P x) → All P xs
  In-All P [] h = tt
  In-All P (y ∷ xs) h = (h y (inl refl), In-All P xs (λ x i. h x (inr i)))
