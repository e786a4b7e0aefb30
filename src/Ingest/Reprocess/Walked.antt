-- ===== src/Ingest/Reprocess/Walked.antt =====
-- How far a pass has gone over an archive: the rows between its old marks and its new ones are
-- refreshed, every other row is as it was. internal/ingest/reprocess.go
use agentic_stats.Prelude.{
  ℕ, ◌≤◌, ◌≡◌, ◌⊎◌, refl, sym, ap, subst, ◌∙◌, ◌&&◌, inl, inr, List, [], ◌∷◌, map, arith, String,
  ltb, leb, if◌then◌else◌, any, All, Bool-cases, Option-cases,
}
use agentic_stats.Store.Record.{Row, of_row}
use agentic_stats.Store.Table.{has_key, max_seq, same_uuid, same_hash, same_line, conflicts}
use agentic_stats.Store.Table.Unique.{IsUnique}
use agentic_stats.Store.Query.{seq_at}
use agentic_stats.Store.Extraction.{Extracted, Archive, extraction_marks, set_extracted}
use agentic_stats.Derive.Identity.{identify}
use agentic_stats.Ingest.Reprocess.{Opener, wanted, agrees, extraction_version}
use agentic_stats.Ingest.Reprocess.Batch.{map-map, map_same, refreshed_to, refreshed}

-- The number up to which an origin is extracted at this version.
unfoldable pub mark : Archive → String → ℕ
mark a o = seq_at (extraction_marks a.marks extraction_version) o

-- A row after a pass that moved the marks.
unfoldable pub walked : Opener → (String → ℕ) → (String → ℕ) → Row → Row
walked opener from upto w =
    if ltb (from w.origin_id) w.seq && leb w.seq (upto w.origin_id) then refreshed opener w else w

-- What a pass that moved the marks of an archive has done to it.
abbrev pub Walked : Opener → Archive → Archive → Type 0
Walked opener a b =
    (b.db.rows ≡ map (walked opener (mark a) (mark b)) a.db.rows)
    × ((o : String) → mark a o ≤ mark b o)
    × (b.db.origin ≡ a.db.origin)

-- A row with other extracted columns, or as it is.
abbrev Dressed : Row → Row → Type 0
Dressed w v = (v ≡ w) ⊎ ((e : Extracted) × (v ≡ set_extracted e w))

pub refreshed-Dressed : (opener : Opener) (w : Row) → Dressed w (refreshed opener w)
unfolding refreshed refreshed_to
refreshed-Dressed opener w = elim (Option-cases (opener.unseal w.sealed)) [
  | inl e ↦ inl (rw e refl)
  | inr (plain, e) ↦
      let want = wanted (of_row w) (identify opener.trim (opener.parse plain)) in
      elim (Bool-cases (agrees want (of_row w))) [
        | inl a ↦ inl (rw (e, refreshed_to, a) refl)
        | inr a ↦ inr (want, rw (e, refreshed_to, a) refl)
      ]
]

pub walked-Dressed :
    (opener : Opener) (m n : String → ℕ) (w : Row) → Dressed w (walked opener m n w)
unfolding walked
walked-Dressed opener m n w =
    elim (Bool-cases (ltb (m w.origin_id) w.seq && leb w.seq (n w.origin_id))) [
      | inl e ↦ rw e (refreshed-Dressed opener w)
      | inr e ↦ rw e (inl refl)
    ]

pub Dressed-key : (w v : Row) → Dressed w v → (v.origin_id ≡ w.origin_id) × (v.seq ≡ w.seq)
unfolding set_extracted
Dressed-key w v (inl e) = (ap (λ (r : Row). r.origin_id) e, ap (λ (r : Row). r.seq) e)
Dressed-key w v (inr (x, e)) = (ap (λ (r : Row). r.origin_id) e, ap (λ (r : Row). r.seq) e)

Dressed-conflicts : (w v x y : Row) → Dressed w v → Dressed x y → conflicts v y ≡ conflicts w x
unfolding conflicts has_key same_line same_uuid same_hash set_extracted
Dressed-conflicts w v x y (inl e) (inl g) = rw (e, g) refl
Dressed-conflicts w v x y (inl e) (inr (b, g)) = rw (e, g) refl
Dressed-conflicts w v x y (inr (a, e)) (inl g) = rw (e, g) refl
Dressed-conflicts w v x y (inr (a, e)) (inr (b, g)) = rw (e, g) refl

any-conflicts-map :
    (f : Row → Row) (d : (w : Row) → Dressed w (f w)) (w : Row) (rows : List Row)
    → any (conflicts (f w)) (map f rows) ≡ any (conflicts w) rows
any-conflicts-map f d w [] = refl
any-conflicts-map f d w (v ∷ rows) =
    rw (Dressed-conflicts w (f w) v (f v) (d w) (d v), any-conflicts-map f d w rows) refl

-- Rows with other extracted columns have the same keys and the same highest numbers.
pub IsUnique-map :
    (f : Row → Row) (d : (w : Row) → Dressed w (f w)) (rows : List Row)
    → IsUnique rows
    → IsUnique (map f rows)
IsUnique-map f d [] u = tt
IsUnique-map f d (w ∷ rows) u = (any-conflicts-map f d w rows ∙ u.0, IsUnique-map f d rows u.1)

pub max_seq-map :
    (f : Row → Row) (d : (w : Row) → Dressed w (f w)) (rows : List Row) (o : String)
    → max_seq (map f rows) o ≡ max_seq rows o
unfolding max_seq
max_seq-map f d [] o = refl
max_seq-map f d (w ∷ rows) o =
    rw ((Dressed-key w (f w) (d w)).0, (Dressed-key w (f w) (d w)).1, max_seq-map f d rows o) refl

pub Walked-IsUnique :
    (opener : Opener) (a b : Archive) → Walked opener a b → IsUnique a.db.rows → IsUnique b.db.rows
Walked-IsUnique opener a b h u = subst IsUnique (sym h.0) (
    IsUnique-map (walked opener (mark a) (mark b)) (walked-Dressed opener (mark a) (mark b))
      a.db.rows u)

pub Walked-max_seq :
    (opener : Opener) (a b : Archive) (o : String)
    → Walked opener a b
    → max_seq b.db.rows o ≡ max_seq a.db.rows o
Walked-max_seq opener a b o h =
    ap (λ rows. max_seq rows o) h.0
    ∙ max_seq-map (walked opener (mark a) (mark b)) (walked-Dressed opener (mark a) (mark b))
        a.db.rows o

pub map_cong : {A B : Type 0} (f g : A → B) (l : List A) → ((a : A) → f a ≡ g a) → map f l ≡ map g l
map_cong f g [] h = refl
map_cong f g (a ∷ l) h = rw (h a, map_cong f g l h) refl

walked_still : (opener : Opener) (m : String → ℕ) (w : Row) → walked opener m m w ≡ w
unfolding walked
walked_still opener m w = ground arith

walked-walked :
    (opener : Opener) (l m n : String → ℕ) (w : Row)
    → l w.origin_id ≤ m w.origin_id
    → m w.origin_id ≤ n w.origin_id
    → walked opener m n (walked opener l m w) ≡ walked opener l n w
unfolding walked
walked-walked opener l m n w p q =
    let key = Dressed-key w (refreshed opener w) (refreshed-Dressed opener w) in
    elim (Bool-cases (ltb (l w.origin_id) w.seq && leb w.seq (m w.origin_id))) [
      | inl e ↦ rw (e, key.0, key.1) (ground arith)
      | inr e ↦ rw e (ground arith)
    ]

-- A pass that did nothing, and one that went on after another.
pub Walked-refl : (opener : Opener) (a : Archive) → Walked opener a a
Walked-refl opener a = (
  sym (
      map_cong (walked opener (mark a) (mark a)) (λ w. w) a.db.rows (walked_still opener (mark a))
      ∙ map_same (λ w. w) a.db.rows (each a.db.rows)),
  (λ o. omega arith),
  refl,
)
  where
    each : (l : List Row) → All (λ w. w ≡ w) l
    each [] = tt
    each (w ∷ l) = (refl, each l)

pub Walked-trans :
    (opener : Opener) (a b c : Archive) → Walked opener a b → Walked opener b c → Walked opener a c
Walked-trans opener a b c h k = (
  k.0
      ∙ ap (λ rows. map (walked opener (mark b) (mark c)) rows) h.0
      ∙ map-map (walked opener (mark b) (mark c)) (walked opener (mark a) (mark b)) a.db.rows
      ∙ map_cong _ (walked opener (mark a) (mark c)) a.db.rows (λ w.
        walked-walked opener (mark a) (mark b) (mark c) w (h.1 w.origin_id) (k.1 w.origin_id)),
  (λ o. omega (arith, h.1 o, k.1 o)),
  k.2 ∙ h.2,
)
