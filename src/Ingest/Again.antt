-- ===== src/Ingest/Again.antt =====
-- What a batch that is uploaded again does to the archive. internal/ingest/ingest.go
use agentic_stats.Prelude.{
  ℕ, suc, ◌+◌, ◌≤◌, ◌≡◌, refl, sym, ap, subst, ◌∙◌, Option, none, some, List, [], ◌∷◌, String,
  ltb-eq_false, length, All,
}
use agentic_stats.Source.{Bytes}
use agentic_stats.Collector.{Upload}
use agentic_stats.Store.Record.{Record, Row, to_row}
use agentic_stats.Store.Table.{IsDense, same_line, same_uuid, same_hash}
use agentic_stats.Store.Append.{Db, AppendResult, AppendError, append_local}
use agentic_stats.Store.Append.Resend.{
  HasIdentity, IsArchived, append_local_archived, append_local-IsArchived, append_local_origin,
}
use agentic_stats.Derive.Identity.{identify}
use agentic_stats.Ingest.{
  max_batch_records, Ingested, Env, to_record, prepend, sealed_record, to_records, counted,
  append_sealed, ingest,
}

-- SealPayload does not fail.
abbrev pub Seals : Env → Type 0
Seals env = (i : ℕ) (b : Bytes) → (c : Bytes) × (env.seal i b ≡ some c)

-- The record of a line but for its sealed text.
abbrev pub unsealed : Env → Upload → Record
unsealed env r = to_record (identify env.trim (env.parse r.bytes)) [] r

-- The records of a batch: as many, and like the lines' but for the sealed texts.
abbrev pub Prepared : Env → List Upload → List Record → Type 0
Prepared env records recs =
    (length recs ≡ length records)
    × (All (λ r. HasIdentity (unsealed env r)) records → All HasIdentity recs)
    × ((rows : List Row) (origin : String)
        → All (IsArchived rows origin) recs
        → All (λ r. IsArchived rows origin (unsealed env r)) records)
    × ((rows : List Row) (origin : String)
        → All (λ r. IsArchived rows origin (unsealed env r)) records
        → All (IsArchived rows origin) recs)

to_records-Prepared :
    (env : Env) (i : ℕ) (records : List Upload)
    → Seals env
    → (recs : List Record) × (to_records env i records ≡ some recs) × Prepared env records recs
unfolding to_records prepend sealed_record to_record same_line same_uuid same_hash to_row
to_records-Prepared env i [] s = ([], refl, (refl, (λ h. tt), (λ rows o h. tt), (λ rows o h. tt)))
to_records-Prepared env i (r ∷ records) s =
    let (c, e) = s i r.bytes in
    let (recs, k, (n, ids, there, back)) = to_records-Prepared env (i + 1) records s in
    (
      to_record (identify env.trim (env.parse r.bytes)) c r ∷ recs,
      rw (e, k) refl,
      (
        ap suc n,
        (λ h. (h.0, ids h.1)),
        (λ rows o h. (h.0, there rows o h.1)),
        (λ rows o h. (h.0, back rows o h.1)),
      ),
    )

-- A batch that fits is appended as the records of its lines.
ingest_records :
    (env : Env) (db : Db) (now : String) (records : List Upload)
    → Seals env
    → length records ≤ max_batch_records
    → (recs : List Record) × Prepared env records recs
      × (ingest env db now records ≡ counted (length records) (append_local db now recs))
unfolding ingest append_sealed counted append_local
ingest_records env db now [] s h = ([], (refl, (λ h. tt), (λ rows o h. tt), (λ rows o h. tt)), refl)
ingest_records env db now (r ∷ records) s h =
    let (recs, e, p) = to_records-Prepared env 0 (r ∷ records) s in
    (recs, p, rw (ltb-eq_false max_batch_records (length (r ∷ records)) h, e) refl)

counted_db : (n : ℕ) (x : Db × AppendResult × Option AppendError) → (counted n x).0 ≡ x.0
unfolding counted
counted_db n (db, out, none) = refl
counted_db n (db, out, some e) = refl

-- A batch of no more than 50000 lines that is uploaded again, at whatever time and sealed anew,
-- changes nothing in the archive and is answered as so many duplicates. It holds where sealing does
-- not fail, for lines that have no uuid or a session beside it, and a node whose numbers have no
-- gap.
pub ingest_again :
    (env : Env) (seal_later : ℕ → Bytes → Option Bytes) (db : Db) (now later : String)
    (records : List Upload)
    → Seals env
    → Seals (record env { seal = seal_later })
    → IsDense db.rows db.origin
    → length records ≤ max_batch_records
    → All (λ r. HasIdentity (unsealed env r)) records
    → let db' = (ingest env db now records).0 in
      All (λ r. IsArchived db'.rows db.origin (unsealed env r)) records
      × (ingest (record env { seal = seal_later }) db' later records ≡ (
        db',
        record { received = length records; stored = 0; duplicates = length records },
        none,
      ))
unfolding counted
ingest_again env seal_later db now later records s s' d h i =
    let (recs, (n, ids, there, back), e) = ingest_records env db now records s h in
    let archived = append_local-IsArchived db now recs d (ids i) in
    let to : (ingest env db now records).0 ≡ (append_local db now recs).0 =
      ap (λ x. x.0) e ∙ counted_db (length records) (append_local db now recs) in
    let db' = (append_local db now recs).0 in
    let (recs', (n', ids', there', back'), e') =
      ingest_records (record env { seal = seal_later }) db' later records s' h in
    let lines = there db'.rows db.origin archived in
    let again = append_local_archived db' later recs' (
      subst (λ o. All (IsArchived db'.rows o) recs') (sym (append_local_origin db now recs))
        (back' db'.rows db.origin lines)) in
    subst
      (λ x.
        All (λ r. IsArchived x.rows db.origin (unsealed env r)) records
        × (ingest (record env { seal = seal_later }) x later records ≡ (
          x,
          record { received = length records; stored = 0; duplicates = length records },
          none,
        )))
      (sym to)
      (
        lines,
        e'
            ∙ ap (counted (length records)) again
            ∙ ap
                (λ (m : ℕ).
                  let z : Ingested =
                    (db', record { received = length records; stored = 0; duplicates = m }, none) in
                  z)
                n',
      )
