-- ===== src/Bridge/Fetch.antt =====
-- What a Fetch brings in. internal/bridge/bridge.go
use agentic_stats.Prelude.{
  ◌+◌, ◌≡◌, refl, sym, ap, subst, ◌∙◌, true, false, ◌⊎◌, inl, inr, Option, none, some, List, [],
  ◌∷◌, ◌++◌, append_assoc, append-nil, arith, String, codes, length, length-append, any-append,
  Bool-cases, Option-cases, All,
}
use agentic_stats.Source.{Bytes}
use agentic_stats.Store.Record.{Record, Row, to_row}
use agentic_stats.Store.Table.{same_line}
use agentic_stats.Store.Table.Unique.{IsUnique}
use agentic_stats.Store.Append.{
  Db, Evidence, AppendResult, AppendError, malformed, in_tx, append_remote,
}
use agentic_stats.Store.Append.Remote.{
  is_kept, holds_content, is_evidence_of, append_remote_accounts,
}
use agentic_stats.Store.Query.{VersionVector, vector}
use agentic_stats.Bridge.Key.{parse_key}
use agentic_stats.Bridge.Folder.{
  Backend, Codec, get_bundle, skipped, Fetched, applied, then_fetch, apply_bundle, fetch_object,
  fetch_loop, nothing_fetched, fetch_listed, fetch,
}

-- Between two moments of a fetch nothing is lost: rows and evidence are added behind what was
-- there, as many as were counted, and no key or line is held twice.
pub record Grown (f g : Fetched) : Type 0 where
  pub origin : g.db.origin ≡ f.db.origin
  pub rows : (ws : List Row) × (g.db.rows ≡ f.db.rows ++ ws) × (g.stored ≡ f.stored + length ws)
  pub evidence :
      (es : List Evidence) × (g.db.quarantine ≡ f.db.quarantine ++ es)
      × (g.forked ≡ f.forked + length es)
  pub unique : IsUnique g.db.rows

Grown-refl : (f : Fetched) → IsUnique f.db.rows → Grown f f
Grown-refl f u = record {
  origin = refl;
  rows = ([], rw append-nil refl, omega arith);
  evidence = ([], rw append-nil refl, omega arith);
  unique = u;
}

Grown-trans : (f g h : Fetched) → Grown f g → Grown g h → Grown f h
Grown-trans f g h a b =
    let (ws, r, n) = a.rows in
    let (vs, q, m) = b.rows in
    let (es, r', n') = a.evidence in
    let (ds, q', m') = b.evidence in
    record {
      origin = b.origin ∙ a.origin;
      rows = (
        ws ++ vs,
        q ∙ ap (λ x. x ++ vs) r ∙ append_assoc f.db.rows ws vs,
        omega (arith, n, m, length-append ws vs),
      );
      evidence = (
        es ++ ds,
        q' ∙ ap (λ x. x ++ ds) r' ∙ append_assoc f.db.quarantine es ds,
        omega (arith, n', m', length-append es ds),
      );
      unique = b.unique;
    }

kept_more :
    (rows ws : List Row) (q es : List Evidence) (r : Record)
    → is_kept rows q r ≡ true
    → is_kept (rows ++ ws) (q ++ es) r ≡ true
kept_more rows ws q es r k = ground (
  arith,
  any-append (holds_content r) rows ws,
  any-append (same_line (to_row r "")) rows ws,
  any-append (is_evidence_of r) q es,
)

abbrev pub AreKept : Db → List Record → Type 0
AreKept db recs = All (λ r. is_kept db.rows db.quarantine r ≡ true) recs

AreKept-later :
    (f g : Fetched) (recs : List Record) → Grown f g → AreKept f.db recs → AreKept g.db recs
AreKept-later f g [] a k = tt
AreKept-later f g (r ∷ recs) a k =
    let (ws, e, n) = a.rows in
    let (es, e', n') = a.evidence in
    (rw (e, e') (kept_more f.db.rows ws f.db.quarantine es r k.0), AreKept-later f g recs a k.1)

append_remote_origin :
    (db : Db) (now : String) (recs : List Record) → (append_remote db now recs).0.origin ≡ db.origin
unfolding append_remote in_tx
append_remote_origin db now [] = refl
append_remote_origin db now (r ∷ recs) = go _
  where
    go : (x : _) → (in_tx db x).0.origin ≡ db.origin
    go (t, none) = refl
    go (t, some e) = refl

-- A bundle whose records all name an origin and a number is applied, and its records are kept.
apply-Grown :
    (now : String) (f : Fetched) (recs : List Record)
    → IsUnique f.db.rows
    → All (λ r. malformed r ≡ false) recs
    → (g : Fetched) × (apply_bundle now f (some recs) ≡ (g, none)) × Grown f g × AreKept g.db recs
unfolding apply_bundle applied
apply-Grown now f recs u m =
    go (append_remote f.db now recs) (append_remote_accounts f.db now recs u m)
      (append_remote_origin f.db now recs)
  where
    go :
        (x : Db × AppendResult × Option AppendError)
        → (x.2 ≡ none)
          × (x.1.stored + x.1.duplicates + x.1.forked ≡ length recs)
          × ((ws : List Row) × (x.0.rows ≡ f.db.rows ++ ws) × (length ws ≡ x.1.stored))
          × ((es : List Evidence) × (x.0.quarantine ≡ f.db.quarantine ++ es)
              × (length es ≡ x.1.forked))
          × IsUnique x.0.rows
          × AreKept x.0 recs
        → x.0.origin ≡ f.db.origin
        → (g : Fetched) × (applied f (length recs) x ≡ (g, none)) × Grown f g × AreKept g.db recs
    go (db, out, none) (e, n, (ws, r, lw), (es, q, le), v, k) o = (
      record {
        db = db;
        fetched = f.fetched + length recs;
        stored = f.stored + out.stored;
        forked = f.forked + out.forked;
      },
      refl,
      record {
        origin = o;
        rows = (ws, r, ap (λ n. f.stored + n) (sym lw));
        evidence = (es, q, ap (λ n. f.forked + n) (sym le));
        unique = v;
      },
      k,
    )
    go (db, out, some e) (h, n, ws, es, v, k) o = cc

module _ {S : Type 0} (B : Backend S) (codec : Codec) (s : S) where
  -- Every record of a bundle names an origin and a number.
  abbrev pub IsWellFormed : Bytes → Type 0
  IsWellFormed key =
      (recs : List Record)
      → get_bundle B codec s key ≡ some recs
      → All (λ r. malformed r ≡ false) recs

  -- A key is passed over, its bundle cannot be read, or all its records are kept.
  abbrev pub IsFetched : String → VersionVector → Db → Bytes → Type 0
  IsFetched own vec db key =
      (skipped (codes own) vec (parse_key key) ≡ true)
      ⊎ ((get_bundle B codec s key ≡ none)
          ⊎ ((recs : List Record) × (get_bundle B codec s key ≡ some recs) × AreKept db recs))

  IsFetched-later :
      (own : String) (vec : VersionVector) (f g : Fetched) (key : Bytes)
      → Grown f g
      → IsFetched own vec f.db key
      → IsFetched own vec g.db key
  IsFetched-later own vec f g key a (inl e) = inl e
  IsFetched-later own vec f g key a (inr (inl e)) = inr (inl e)
  IsFetched-later own vec f g key a (inr (inr (recs, e, k))) =
      inr (inr (recs, e, AreKept-later f g recs a k))

  object-IsFetched :
      (now : String) (vec : VersionVector) (key : Bytes) (f : Fetched)
      → IsUnique f.db.rows
      → IsWellFormed key
      → (g : Fetched) × (fetch_object B codec now vec s key f ≡ (g, none))
        × Grown f g
        × IsFetched f.db.origin vec g.db key
  unfolding fetch_object apply_bundle
  object-IsFetched now vec key f u w =
      elim (Bool-cases (skipped (codes f.db.origin) vec (parse_key key))) [
        | inl k ↦ (f, rw (k, fetch_object) refl, Grown-refl f u, inl k)
        | inr k ↦ elim (Option-cases (get_bundle B codec s key)) [
          | inl e ↦ (f, rw (k, fetch_object, e) refl, Grown-refl f u, inr (inl e))
          | inr (recs, e) ↦
              let (g, h, a, kept) = apply-Grown now f recs u (w recs e) in
              (g, rw (k, fetch_object, e) h, a, inr (inr (recs, e, kept)))
        ]
      ]

  loop-IsFetched :
      (now : String) (vec : VersionVector) (keys : List Bytes) (f : Fetched)
      → IsUnique f.db.rows
      → All IsWellFormed keys
      → (g : Fetched) × (fetch_loop B codec now vec s keys f ≡ (g, none))
        × Grown f g
        × All (IsFetched f.db.origin vec g.db) keys
  unfolding fetch_loop then_fetch
  loop-IsFetched now vec [] f u w = (f, refl, Grown-refl f u, tt)
  loop-IsFetched now vec (key ∷ keys) f u w =
      let (g, e, a, here) = object-IsFetched now vec key f u w.0 in
      let (h, e', b, there) = loop-IsFetched now vec keys g a.unique w.1 in
      (
        h,
        ap (then_fetch (fetch_loop B codec now vec s keys)) e ∙ e',
        Grown-trans f g h a b,
        (
          IsFetched-later f.db.origin vec g h key b here,
          subst (λ o. All (IsFetched o vec h.db) keys) a.origin there,
        ),
      )

-- A Fetch of a folder whose readable bundles hold only records with an origin and a number
-- succeeds. It only adds rows and fork evidence, as many as it counts, keeps keys and lines unique,
-- and afterwards every listed object is one that is passed over (no bundle's name, this node's own,
-- or not above the vector that was read first), cannot be read, or has all its records kept.
pub fetch-IsFetched :
    {S : Type 0} (B : Backend S) (codec : Codec) (now : String) (db : Db) (s : S)
    (keys : List Bytes)
    → IsUnique db.rows
    → B.list [] s ≡ some keys
    → All (IsWellFormed B codec s) keys
    → (g : Fetched) × (fetch B codec now db s ≡ (g, none))
      × Grown (nothing_fetched B db) g
      × All (IsFetched B codec s db.origin (vector db) g.db) keys
unfolding fetch fetch_listed
fetch-IsFetched B codec now db s keys u l w =
    let (g, e, a, k) = loop-IsFetched B codec s now (vector db) keys (nothing_fetched B db) u w in
    (g, rw l e, a, k)
