-- ===== src/Ingest/Reprocess/Origins.antt =====
-- The walk over the origins, each of which stands once in the list. internal/ingest/reprocess.go
use agentic_stats.Prelude.{
  ◌≡◌, ◌⊎◌, refl, sym, false, not, inl, inr, none, some, List, [], ◌∷◌, arith, String, str_eq,
  eq_iff, select, All, In, Bool-cases,
}
use Prim.Native.String.{compare}
use Prim.Native.Nat.{Ordering}
use agentic_stats.Store.Record.{Row}
use agentic_stats.Store.Append.{Db}
use agentic_stats.Store.Query.{VersionVector, seq_at, has_origin, group_max, vector}
use agentic_stats.Ingest.Reprocess.{Pass, PassError, Passed, place, sorted_origins, then_pass}

-- No origin stands twice, in a list and in a version vector.
abbrev pub NoRepeat : List String → Type 0
NoRepeat [] = Unit
NoRepeat (o ∷ os) = All (λ p. str_eq o p ≡ false) os × NoRepeat os

abbrev OneEach : VersionVector → Type 0
OneEach [] = Unit
OneEach (e ∷ vec) = (has_origin vec (e.0) ≡ false) × OneEach vec

lacks-select :
    (gone o : String) (vec : VersionVector)
    → has_origin vec o ≡ false
    → has_origin (select (λ e. not (str_eq e.0 gone)) vec) o ≡ false
unfolding has_origin
lacks-select gone o [] h = refl
lacks-select gone o (e ∷ vec) h = elim (Bool-cases (str_eq (e.0) gone)) [
  | inl g ↦ rw g (lacks-select gone o vec (ground arith))
  | inr g ↦ rw g (ground (arith, lacks-select gone o vec))
]

OneEach-select :
    (gone : String) (vec : VersionVector)
    → OneEach vec
    → OneEach (select (λ e. not (str_eq e.0 gone)) vec)
OneEach-select gone [] h = tt
OneEach-select gone (e ∷ vec) h = elim (Bool-cases (str_eq (e.0) gone)) [
  | inl g ↦ rw g (OneEach-select gone vec h.1)
  | inr g ↦ rw g (lacks-select gone (e.0) vec h.0, OneEach-select gone vec h.1)
]

select_gone :
    (gone : String) (vec : VersionVector)
    → has_origin (select (λ e. not (str_eq e.0 gone)) vec) gone ≡ false
unfolding has_origin
select_gone gone [] = refl
select_gone gone (e ∷ vec) = ground (arith, select_gone gone vec)

OneEach-group_max : (rows : List Row) → OneEach (group_max rows)
unfolding group_max
OneEach-group_max [] = tt
OneEach-group_max (w ∷ rows) = (
  select_gone w.origin_id (group_max rows),
  OneEach-select w.origin_id (group_max rows) (OneEach-group_max rows),
)

OneEach-vector : (db : Db) → OneEach (vector db)
unfolding vector
OneEach-vector db = elim (Bool-cases (has_origin (group_max db.rows) db.origin)) [
  | inl e ↦ rw e (OneEach-group_max db.rows)
  | inr e ↦ rw e (e, OneEach-group_max db.rows)
]

place_cases :
    (o p : String) (os : List String)
    → (place o (p ∷ os) ≡ p ∷ place o os) ⊎ (place o (p ∷ os) ≡ o ∷ p ∷ os)
unfolding place
place_cases o p os = go (compare o p)
  where
    go :
        (c : Ordering)
        → (elim c [ Ordering.gt ↦ p ∷ place o os | _ ↦ o ∷ p ∷ os ] ≡ p ∷ place o os)
          ⊎ (elim c [ Ordering.gt ↦ p ∷ place o os | _ ↦ o ∷ p ∷ os ] ≡ o ∷ p ∷ os)
    go Ordering.gt = inl refl
    go Ordering.lt = inr refl
    go Ordering.eq = inr refl

All-place :
    (P : String → Type 0) (o : String) (os : List String) → P o → All P os → All P (place o os)
All-place P o [] h k = unfold place in (h, tt)
All-place P o (p ∷ os) h k = elim (place_cases o p os) [
  | inl e ↦ rw e (k.0, All-place P o os h k.1)
  | inr e ↦ rw e (h, k)
]

NoRepeat-place :
    (o : String) (os : List String)
    → All (λ p. str_eq o p ≡ false) os
    → NoRepeat os
    → NoRepeat (place o os)
NoRepeat-place o [] h n = unfold place in (tt, tt)
NoRepeat-place o (p ∷ os) h n = elim (place_cases o p os) [
  | inl e ↦ rw e (
    All-place (λ x. str_eq p x ≡ false) o os (ground (arith, h.0, eq_iff o p, eq_iff p o)) n.0,
    NoRepeat-place o os h.1 n.1,
  )
  | inr e ↦ rw e (h, n)
]

In-place : (x o : String) (os : List String) → (x ≡ o) ⊎ In x os → In x (place o os)
In-place x o [] h = unfold place in h
In-place x o (p ∷ os) h = elim (place_cases o p os) [
  | inl e ↦ rw e (later h (λ k. In-place x o os k))
  | inr e ↦ rw e h
]
  where
    later :
        (x ≡ o) ⊎ In x (p ∷ os) → ((x ≡ o) ⊎ In x os → In x (place o os)) → In x (p ∷ place o os)
    later (inl e) f = inr (f (inl e))
    later (inr (inl e)) f = inl e
    later (inr (inr i)) f = inr (f (inr i))

lacks-sorted_origins :
    (vec : VersionVector) (o : String)
    → has_origin vec o ≡ false
    → All (λ p. str_eq o p ≡ false) (sorted_origins vec)
unfolding has_origin sorted_origins
lacks-sorted_origins [] o h = tt
lacks-sorted_origins (e ∷ vec) o h =
    All-place (λ p. str_eq o p ≡ false) (e.0) (sorted_origins vec)
      (ground (arith, eq_iff (e.0) o, eq_iff o (e.0))) (lacks-sorted_origins vec o (ground arith))

sorted_origins-NoRepeat : (vec : VersionVector) → OneEach vec → NoRepeat (sorted_origins vec)
unfolding sorted_origins
sorted_origins-NoRepeat [] h = tt
sorted_origins-NoRepeat (e ∷ vec) h =
    NoRepeat-place (e.0) (sorted_origins vec) (lacks-sorted_origins vec (e.0) h.0)
      (sorted_origins-NoRepeat vec h.1)

pub NoRepeat-vector : (db : Db) → NoRepeat (sorted_origins (vector db))
NoRepeat-vector db = sorted_origins-NoRepeat (vector db) (OneEach-vector db)

-- An origin with a number in the vector is in the walk.
pub origin_walked :
    (vec : VersionVector) (o : String) → (seq_at vec o ≡ 0) ⊎ In o (sorted_origins vec)
unfolding seq_at sorted_origins
origin_walked [] o = inl refl
origin_walked ((p, n) ∷ vec) o = elim (Bool-cases (str_eq p o)) [
  | inl e ↦ inr (In-place o p (sorted_origins vec) (inl (sym ((eq_iff p o).0 e))))
  | inr e ↦ elim (origin_walked vec o) [
    | inl q ↦ inl (rw e q)
    | inr i ↦ inr (In-place o p (sorted_origins vec) (inr i))
  ]
]

pub then_pass-none : (more : Pass → Passed) (r : Passed) → r.1 ≡ none → then_pass more r ≡ more r.0
unfolding then_pass
then_pass-none more r e = rw e refl

pub then_pass-some :
    (more : Pass → Passed) (r : Passed) (x : PassError) → r.1 ≡ some x → then_pass more r ≡ r
unfolding then_pass
then_pass-some more r x e = rw e refl
