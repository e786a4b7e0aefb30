-- ===== src/Store/Append/Remote.antt =====
-- AppendRemote loses nothing that a peer sends, and changes nothing that is held.
use agentic_stats.Prelude.{
  ℕ, suc, ◌+◌, ◌≡◌, refl, sym, subst, Bool, true, false, ◌&&◌, ◌||◌, Option, none, some, List, [],
  ◌∷◌, ◌++◌, arith, String, str_eq, str_eq_refl, ◌==◌, inl, inr, length, length-append,
  append_assoc, append-nil, any, any-append, All, Bool-cases, Option-cases,
}
use agentic_stats.Store.Record.{Record, Row, to_row}
use agentic_stats.Store.Table.{conflicts, has_key, same_line, same_uuid, same_hash, find_row}
use agentic_stats.Store.Table.Keys.{exec_insert_cases, find_row-none, any-conflicts}
use agentic_stats.Store.Table.Unique.{IsUnique, IsUnique-snoc}
use agentic_stats.Store.Append.{
  Db, Tx, Evidence, AppendError, missing_origin_or_sequence, begin, in_tx, malformed, remote_step,
  remote_loop, append_remote,
}

abbrev pub evidence_of : Record → String → Evidence
evidence_of r now = record {
  origin_id = r.origin_id;
  seq = r.seq;
  content_hash = r.content_hash;
  sealed = r.sealed;
  noticed_at = now;
}

-- The four things that a round can do.
pub data Round (now : String) (t : Tx) (r : Record) : Tx → Type 0 where
  same_content :
      (w : Row)
      → find_row t.rows r.origin_id r.seq ≡ some w
      → str_eq w.content_hash r.content_hash ≡ true
      → Round now t r (record t { out = record (t.out) { duplicates = t.out.duplicates + 1 } })
  fork :
      (w : Row)
      → find_row t.rows r.origin_id r.seq ≡ some w
      → str_eq w.content_hash r.content_hash ≡ false
      → Round now t r (record t {
        quarantine = t.quarantine ++ evidence_of r now ∷ [];
        out = record (t.out) { forked = t.out.forked + 1 };
      })
  same_line_held :
      find_row t.rows r.origin_id r.seq ≡ none
      → any (same_line (to_row r now)) t.rows ≡ true
      → Round now t r (record t { out = record (t.out) { duplicates = t.out.duplicates + 1 } })
  stored :
      (last : ℕ)
      → find_row t.rows r.origin_id r.seq ≡ none
      → any (conflicts (to_row r now)) t.rows ≡ false
      → Round now t r (record t {
        rows = t.rows ++ to_row r now ∷ [];
        out = record (t.out) { stored = t.out.stored + 1; last_seq = last };
      })

line_of_conflict :
    (rows : List Row) (r : Record) (now : String)
    → find_row rows r.origin_id r.seq ≡ none
    → any (conflicts (to_row r now)) rows ≡ true
    → any (same_line (to_row r now)) rows ≡ true
unfolding to_row
line_of_conflict rows r now f c =
    ground (arith, any-conflicts rows (to_row r now), find_row-none rows r.origin_id r.seq f)

pub remote_step-Round : (now : String) (t : Tx) (r : Record) → Round now t r (remote_step now t r)
unfolding remote_step
remote_step-Round now t r = elim (Option-cases (find_row t.rows r.origin_id r.seq)) [
  | inl e ↦ elim (exec_insert_cases t.rows r now) [
    | inl (x, c) ↦ rw (e, remote_step, x) (same_line_held e (line_of_conflict t.rows r now e c))
    | inr (x, c) ↦ rw (e, remote_step, x) (stored _ e c)
  ]
  | inr (w, e) ↦ elim (Bool-cases (str_eq w.content_hash r.content_hash)) [
    | inl c ↦ rw (e, remote_step, c) (same_content w e c)
    | inr c ↦ rw (e, remote_step, c) (fork w e c)
  ]
]

-- A table that holds the record under its number, or under another number, or as fork evidence.
unfoldable pub holds_content : Record → Row → Bool
holds_content r w = has_key r.origin_id r.seq w && str_eq w.content_hash r.content_hash

unfoldable pub is_evidence_of : Record → Evidence → Bool
is_evidence_of r e =
    str_eq e.origin_id r.origin_id && ((e.seq == r.seq) && str_eq e.content_hash r.content_hash)

abbrev pub is_kept : List Row → List Evidence → Record → Bool
is_kept rows quarantine r =
    any (holds_content r) rows
    || (any (is_evidence_of r) quarantine || any (same_line (to_row r "")) rows)

-- What the loop keeps between rounds, from the state that it started with.
pub record Accounted (start : Tx) (rounds : ℕ) (t : Tx) : Type 0 where
  pub unique : IsUnique t.rows
  pub count :
      t.out.stored + t.out.duplicates + t.out.forked
      ≡ rounds + (start.out.stored + start.out.duplicates + start.out.forked)
  pub rows :
      (ws : List Row) × (t.rows ≡ start.rows ++ ws) × (length ws + start.out.stored ≡ t.out.stored)
  pub evidence :
      (es : List Evidence) × (t.quarantine ≡ start.quarantine ++ es)
      × (length es + start.out.forked ≡ t.out.forked)

Round-Accounted :
    (now : String) (start t : Tx) (rounds : ℕ) (r : Record) {u : Tx}
    → Round now t r u
    → Accounted start rounds t
    → Accounted start (suc rounds) u
Round-Accounted now start t rounds r (same_content w f c) h = record {
  unique = h.unique;
  count = omega (arith, h.count);
  rows = h.rows;
  evidence = h.evidence;
}
Round-Accounted now start t rounds r (same_line_held f c) h = record {
  unique = h.unique;
  count = omega (arith, h.count);
  rows = h.rows;
  evidence = h.evidence;
}
Round-Accounted now start t rounds r (fork w f c) h = record {
  unique = h.unique;
  count = omega (arith, h.count);
  rows = h.rows;
  evidence = (
    h.evidence.0 ++ evidence_of r now ∷ [],
    rw h.evidence.1 (append_assoc start.quarantine h.evidence.0 (evidence_of r now ∷ [])),
    omega (arith, length-append h.evidence.0 (evidence_of r now ∷ []), h.evidence.2),
  );
}
Round-Accounted now start t rounds r (stored last f c) h = record {
  unique = IsUnique-snoc t.rows (to_row r now) h.unique c;
  count = omega (arith, h.count);
  rows = (
    h.rows.0 ++ to_row r now ∷ [],
    rw h.rows.1 (append_assoc start.rows h.rows.0 (to_row r now ∷ [])),
    omega (arith, length-append h.rows.0 (to_row r now ∷ []), h.rows.2),
  );
  evidence = h.evidence;
}

find_row-holds :
    (rows : List Row) (r : Record) (w : Row)
    → find_row rows r.origin_id r.seq ≡ some w
    → str_eq w.content_hash r.content_hash ≡ true
    → any (holds_content r) rows ≡ true
unfolding find_row holds_content
find_row-holds [] r w f c = cc
find_row-holds (v ∷ rows) r w f c = ground (arith, find_row-holds rows r w)

same_content_self : (r : Record) (now : String) → holds_content r (to_row r now) ≡ true
unfolding holds_content has_key to_row
same_content_self r now = ground (arith, str_eq_refl r.origin_id, str_eq_refl r.content_hash)

evidence_self : (r : Record) (now : String) → is_evidence_of r (evidence_of r now) ≡ true
unfolding is_evidence_of
evidence_self r now = ground (arith, str_eq_refl r.origin_id, str_eq_refl r.content_hash)

same_line_now :
    (rows : List Row) (r : Record) (now : String)
    → any (same_line (to_row r now)) rows ≡ any (same_line (to_row r "")) rows
unfolding same_line same_uuid same_hash to_row
same_line_now rows r now = refl

Round-keeps_own :
    (now : String) (t : Tx) (r : Record) {u : Tx}
    → Round now t r u
    → is_kept u.rows u.quarantine r ≡ true
Round-keeps_own now t r (same_content w f c) = ground (arith, find_row-holds t.rows r w f c)
Round-keeps_own now t r (same_line_held f c) = ground (arith, same_line_now t.rows r now)
Round-keeps_own now t r (fork w f c) = ground (
  arith,
  any-append (is_evidence_of r) t.quarantine (evidence_of r now ∷ []),
  evidence_self r now,
)
Round-keeps_own now t r (stored last f c) =
    ground (arith, any-append (holds_content r) t.rows (to_row r now ∷ []), same_content_self r now)

any_mono {ℓ} :
    {A : Type ℓ} (p : A → Bool) (xs ys zs : List A)
    → xs ≡ ys ++ zs
    → any p ys ≡ true
    → any p xs ≡ true
any_mono p xs ys zs e h = rw (e, any-append p ys zs, h)

kept_later :
    (start : Tx) (rounds : ℕ) (t : Tx) (r : Record)
    → Accounted start rounds t
    → is_kept start.rows start.quarantine r ≡ true
    → is_kept t.rows t.quarantine r ≡ true
kept_later start rounds t r h k =
    rw (h.rows.1, h.evidence.1)
      (ground (
        arith,
        any-append (holds_content r) start.rows h.rows.0,
        any-append (same_line (to_row r "")) start.rows h.rows.0,
        any-append (is_evidence_of r) start.quarantine h.evidence.0,
      ))

Accounted-refl : (t : Tx) → IsUnique t.rows → Accounted t 0 t
Accounted-refl t u = record {
  unique = u;
  count = omega arith;
  rows = ([], rw append-nil, omega arith);
  evidence = ([], rw append-nil, omega arith);
}

Accounted-trans : {s t u : Tx} {m n : ℕ} → Accounted s m t → Accounted t n u → Accounted s (m + n) u
Accounted-trans {s} {t} {u} g h = record {
  unique = h.unique;
  count = omega (arith, g.count, h.count);
  rows = (
    g.rows.0 ++ h.rows.0,
    rw (h.rows.1, g.rows.1) (append_assoc s.rows g.rows.0 h.rows.0),
    omega (arith, length-append g.rows.0 h.rows.0, g.rows.2, h.rows.2),
  );
  evidence = (
    g.evidence.0 ++ h.evidence.0,
    rw (h.evidence.1, g.evidence.1) (append_assoc s.quarantine g.evidence.0 h.evidence.0),
    omega (arith, length-append g.evidence.0 h.evidence.0, g.evidence.2, h.evidence.2),
  );
}

add_one_round : (s : Tx) (n : ℕ) (t : Tx) → Accounted s (1 + n) t → Accounted s (suc n) t
add_one_round s n t h = record {
  unique = h.unique;
  count = omega (arith, h.count);
  rows = h.rows;
  evidence = h.evidence;
}

committed :
    (db : Db) (x : Tx × Option AppendError) (n : ℕ) (P : List Row → List Evidence → Type 0)
    → Accounted (begin db) n x.0
    → x.1 ≡ none
    → P x.0.rows x.0.quarantine
    → let (db', out, e) = in_tx db x in
      (e ≡ none)
      × (out.stored + out.duplicates + out.forked ≡ n)
      × ((ws : List Row) × (db'.rows ≡ db.rows ++ ws) × (length ws ≡ out.stored))
      × ((es : List Evidence) × (db'.quarantine ≡ db.quarantine ++ es) × (length es ≡ out.forked))
      × IsUnique db'.rows
      × P db'.rows db'.quarantine
unfolding in_tx
committed db (t, none) n P h e p = (
  refl,
  omega (arith, h.count),
  (h.rows.0, h.rows.1, omega (arith, h.rows.2)),
  (h.evidence.0, h.evidence.1, omega (arith, h.evidence.2)),
  h.unique,
  p,
)
committed db (t, some x) n P h e p = cc

rolled_back :
    (db : Db) (x : Tx × Option AppendError) {e : AppendError}
    → x.1 ≡ some e
    → ((in_tx db x).0 ≡ db) × ((in_tx db x).2 ≡ some e)
unfolding in_tx
rolled_back db (t, none) h = cc
rolled_back db (t, some x) h = (refl, h)

abbrev DealtWith : Tx → List Record → Tx × Option AppendError → Type 0
DealtWith t recs x =
    Accounted t (length recs) x.0
    × (x.1 ≡ none)
    × All (λ r. is_kept x.0.rows x.0.quarantine r ≡ true) recs

remote_loop_cons :
    (now : String) (t : Tx) (r : Record) (recs : List Record)
    → malformed r ≡ false
    → remote_loop now t (r ∷ recs) ≡ remote_loop now (remote_step now t r) recs
unfolding remote_loop
remote_loop_cons now t r recs m = rw (m, remote_loop)

-- Every record of a batch that is well formed throughout has been dealt with.
remote_loop-Accounted :
    (now : String) (t : Tx) (recs : List Record)
    → IsUnique t.rows
    → All (λ r. malformed r ≡ false) recs
    → DealtWith t recs (remote_loop now t recs)
unfolding remote_loop
remote_loop-Accounted now t [] u m = (Accounted-refl t u, refl, tt)
remote_loop-Accounted now t (r ∷ recs) u m =
    let mid : Tx = remote_step now t r in
    let step : Round now t r mid = remote_step-Round now t r in
    let one : Accounted t 1 mid = Round-Accounted now t t 0 r step (Accounted-refl t u) in
    let (h, e, kept) = remote_loop-Accounted now mid recs one.unique m.1 in
    subst (λ x. DealtWith t (r ∷ recs) x) (sym (remote_loop_cons now t r recs m.0))
      (
        add_one_round t (length recs) _ (Accounted-trans one h),
        e,
        (
          kept_later mid (length recs) (remote_loop now mid recs).0 r h
              (Round-keeps_own now t r step),
          kept,
        ),
      )

-- Nothing that a peer sends is lost, and nothing that is held changes. When every record of a batch
-- names an origin and a number, the batch succeeds; every record is counted once, as stored, as a
-- duplicate or as a fork; the rows and the fork evidence held before stay, and as many are added
-- behind them as were counted; no key or line is held twice; and each record is afterwards held
-- under its own number with its content, or as fork evidence, or as a line of its origin that is
-- held under some number.
pub append_remote_accounts :
    (db : Db) (now : String) (recs : List Record)
    → IsUnique db.rows
    → All (λ r. malformed r ≡ false) recs
    → let (db', out, e) = append_remote db now recs in
      (e ≡ none)
      × (out.stored + out.duplicates + out.forked ≡ length recs)
      × ((ws : List Row) × (db'.rows ≡ db.rows ++ ws) × (length ws ≡ out.stored))
      × ((es : List Evidence) × (db'.quarantine ≡ db.quarantine ++ es) × (length es ≡ out.forked))
      × IsUnique db'.rows
      × All (λ r. is_kept db'.rows db'.quarantine r ≡ true) recs
unfolding append_remote in_tx
append_remote_accounts db now [] u m =
    (refl, refl, ([], rw append-nil, refl), ([], rw append-nil, refl), u, tt)
append_remote_accounts db now (r ∷ recs) u m =
    let (h, e, kept) = remote_loop-Accounted now (begin db) (r ∷ recs) u m in
    committed db (remote_loop now (begin db) (r ∷ recs)) (length (r ∷ recs))
      (λ rows q. All (λ y. is_kept rows q y ≡ true) (r ∷ recs)) h e kept

loop_fails :
    (now : String) (t : Tx) (recs : List Record)
    → any malformed recs ≡ true
    → (remote_loop now t recs).1 ≡ some missing_origin_or_sequence
unfolding remote_loop
loop_fails now t [] h = cc
loop_fails now t (r ∷ recs) h = elim (Bool-cases (malformed r)) [
  | inl e ↦ rw (e, remote_loop)
  | inr e ↦ rw (e, remote_loop) (loop_fails now (remote_step now t r) recs (ground arith))
]

-- A batch with a record that names no origin or no sequence number fails, wherever in the batch it
-- stands, and leaves the database as it was.
pub append_remote_rolls_back :
    (db : Db) (now : String) (recs : List Record)
    → any malformed recs ≡ true
    → ((append_remote db now recs).0 ≡ db)
      × ((append_remote db now recs).2 ≡ some missing_origin_or_sequence)
unfolding append_remote
append_remote_rolls_back db now [] h = cc
append_remote_rolls_back db now (r ∷ recs) h =
    rolled_back db _ (loop_fails now (begin db) (r ∷ recs) h)
