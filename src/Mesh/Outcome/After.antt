-- ===== src/Mesh/Outcome/After.antt =====
-- The row of a peer after an exchange with it. internal/mesh/mesh.go
use agentic_stats.Prelude.{
  ℕ, max, ◌≡◌, ◌≢◌, ◌⊎◌, refl, sym, ap, subst, ◌∙◌, false, Option, none, some, String, str_eq,
  if◌then◌else◌, inl, inr, Bool-cases, Option-cases,
}
use agentic_stats.Store.Query.{VersionVector}
use agentic_stats.Store.Peers.{
  PeerRow, Rows, Outcome, converged, failed, find_peer, save_peer, save_peer_hostname,
  save_peer_version, column, upsert, merged, first_heard, find_peer-upsert, find_peer-upsert_other,
  Recorded, record_convergence-Recorded,
}
use agentic_stats.Mesh.Outcome.{
  or_kept, Exchanged, encoded_vector, outcome_of, record_outcome, record_peer_host,
  record_peer_version, record_address, exchange,
}

-- A name that was told, or what was known before.
abbrev pub told : String → Option String → Option String
told name before = if str_eq name "" then before else some name

upsert-some :
    (new : PeerRow) (change : PeerRow → PeerRow) (rows : Rows) (q : PeerRow)
    → ((p : PeerRow) → (change p).peer_id ≡ p.peer_id)
    → find_peer rows new.peer_id ≡ some q
    → find_peer (upsert new change rows) new.peer_id ≡ some (change q)
unfolding merged
upsert-some new change rows q k h =
    find_peer-upsert new change rows k ∙ ap (λ o. some (merged new change o)) h

record_peer_host-find :
    (now id host : String) (rows : Rows) (q : PeerRow)
    → str_eq id "" ≡ false
    → find_peer rows id ≡ some q
    → find_peer (record_peer_host now id host rows) id
      ≡ some (record q { hostname = told host q.hostname })
unfolding record_peer_host save_peer_hostname or_kept
record_peer_host-find now id host rows q n h = elim (Bool-cases (str_eq host "")) [
  | inl e ↦ rw (n, e) h
  | inr e ↦
      rw (n, e)
        (upsert-some (record (first_heard id now) { hostname = some host })
          (λ p. record p { hostname = some host }) rows q (λ p. refl) h)
]

record_peer_version-find :
    (now id version : String) (rows : Rows) (q : PeerRow)
    → str_eq id "" ≡ false
    → find_peer rows id ≡ some q
    → find_peer (record_peer_version now id version rows) id
      ≡ some (record q { version = told version q.version })
unfolding record_peer_version save_peer_version or_kept
record_peer_version-find now id version rows q n h = elim (Bool-cases (str_eq version "")) [
  | inl e ↦ rw (n, e) h
  | inr e ↦
      rw (n, e)
        (upsert-some (record (first_heard id now) { version = some version })
          (λ p. record p { version = some version }) rows q (λ p. refl) h)
]

record_address-find :
    (now id host : String) (rows : Rows) (q : PeerRow)
    → str_eq id "" ≡ false
    → str_eq host "" ≡ false
    → find_peer rows id ≡ some q
    → find_peer (record_address now id host rows) id
      ≡ some (record q { addrs = host; last_seen = now; is_static = max q.is_static 0 })
unfolding record_address save_peer or_kept
record_address-find now id host rows q n e h =
    rw (n, e)
      (upsert-some (record (first_heard id now) { addrs = host; is_static = 0 })
        (λ p. record p { addrs = host; last_seen = now; is_static = max p.is_static 0 }) rows q
        (λ p. refl) h)

-- An operation that leaves the rows of all other peers as they are.
abbrev pub Spares : String → Rows → Rows → Type 0
Spares id rows after = (j : String) → id ≢ j → find_peer after j ≡ find_peer rows j

record_peer_host-Spares :
    (now id host : String) (rows : Rows) → Spares id rows (record_peer_host now id host rows)
unfolding record_peer_host save_peer_hostname or_kept
record_peer_host-Spares now id host rows j d = elim (Bool-cases (str_eq id "")) [
  | inl n ↦ rw n refl
  | inr n ↦ elim (Bool-cases (str_eq host "")) [
    | inl e ↦ rw (n, e) refl
    | inr e ↦
        rw (n, e)
          (find_peer-upsert_other (record (first_heard id now) { hostname = some host })
            (λ p. record p { hostname = some host }) rows j (λ p. refl) d)
  ]
]

record_peer_version-Spares :
    (now id version : String) (rows : Rows)
    → Spares id rows (record_peer_version now id version rows)
unfolding record_peer_version save_peer_version or_kept
record_peer_version-Spares now id version rows j d = elim (Bool-cases (str_eq id "")) [
  | inl n ↦ rw n refl
  | inr n ↦ elim (Bool-cases (str_eq version "")) [
    | inl e ↦ rw (n, e) refl
    | inr e ↦
        rw (n, e)
          (find_peer-upsert_other (record (first_heard id now) { version = some version })
            (λ p. record p { version = some version }) rows j (λ p. refl) d)
  ]
]

record_address-Spares :
    (now id host : String) (rows : Rows) → Spares id rows (record_address now id host rows)
unfolding record_address save_peer or_kept
record_address-Spares now id host rows j d = elim (Bool-cases (str_eq id "")) [
  | inl n ↦ elim (Bool-cases (str_eq host "")) [ inl e ↦ rw e refl | inr e ↦ rw (e, n) refl ]
  | inr n ↦ elim (Bool-cases (str_eq host "")) [
    | inl e ↦ rw e refl
    | inr e ↦
        rw (n, e)
          (find_peer-upsert_other (record (first_heard id now) { addrs = host; is_static = 0 })
            (λ p. record p { addrs = host; last_seen = now; is_static = max p.is_static 0 }) rows j
            (λ p. refl) d)
  ]
]

-- What is told of an exchange leaves what is recorded of its outcome.
Recorded-told_kept :
    (o : Outcome) (now : String) (before : Option PeerRow) (q : PeerRow) (h v : Option String)
    → Recorded o now before q
    → Recorded o now before (record q { hostname = h; version = v })
Recorded-told_kept (converged w) now before q h v r = r
Recorded-told_kept (failed e) now before q h v r = r

Recorded-address_kept :
    (o : Outcome) (now : String) (before : Option PeerRow) (q : PeerRow) (host at : String) (n : ℕ)
    → Recorded o now before q
    → Recorded o now before (record q { addrs = host; last_seen = at; is_static = n })
Recorded-address_kept (converged w) now before q host at n r = r
Recorded-address_kept (failed e) now before q host at n r = r

-- The rows after an exchange with a peer: its own, by the exchange's outcome and what it told, and
-- the others.
abbrev pub IsRecorded : Outcome → String → String → String → Exchanged → Rows → Rows → Type 0
IsRecorded o now id host x rows after =
    let before = find_peer rows id in
    (q : PeerRow) × (find_peer after id ≡ some q)
    × Recorded o now before q
    × (q.hostname ≡ told x.peer_host (column (λ p. p.hostname) before))
    × (q.version ≡ told x.peer_version (column (λ p. p.version) before))
    × ((x.error ≢ none) ⊎ (q.addrs ≡ host))
    × Spares id rows after

-- After an exchange with another, named peer, its row says what came of it: a success clears the
-- error and leaves as the only address the one that the connection came from, and a failure leaves
-- the last success; a name and a version that the peer told are recorded in both cases, and without
-- one the earlier stay. Every other peer's row is as it was.
pub exchange-Recorded :
    (marshal : VersionVector → Option String) (times : ℕ → String) (node_id id host : String)
    (x : Exchanged) (rows : Rows)
    → str_eq id "" ≡ false
    → str_eq host "" ≡ false
    → str_eq id node_id ≡ false
    → IsRecorded
        (outcome_of (encoded_vector marshal x.peer_vector) x.error)
        (times 0)
        id
        host
        x
        rows
        (exchange marshal times node_id id host x rows)
unfolding exchange record_outcome or_kept
exchange-Recorded marshal times node_id id host x rows n a s =
    let o = outcome_of (encoded_vector marshal x.peer_vector) x.error in
    let (r1, q1, e1, f1, rec, hn, vn, sp1) = record_convergence-Recorded id o (times 0) rows n in
    let r2 = record_peer_host (times 1) id x.peer_host r1 in
    let r3 = record_peer_version (times 2) id x.peer_version r2 in
    let q2 : PeerRow = record q1 { hostname = told x.peer_host q1.hostname } in
    let q3 : PeerRow = record q2 { version = told x.peer_version q1.version } in
    let f2 = record_peer_host-find (times 1) id x.peer_host r1 q1 n f1 in
    let f3 = record_peer_version-find (times 2) id x.peer_version r2 q2 n f2 in
    let kept = Recorded-told_kept o (times 0) (find_peer rows id) q1 q3.hostname q3.version rec in
    let hn3 = ap (told x.peer_host) hn in
    let vn3 = ap (told x.peer_version) vn in
    let sp3 : Spares id rows r3 = λ j d.
      record_peer_version-Spares (times 2) id x.peer_version r2 j d
      ∙ record_peer_host-Spares (times 1) id x.peer_host r1 j d
      ∙ sp1 j d in
    elim (Option-cases x.error) [
      | inl ok ↦
          let to : exchange marshal times node_id id host x rows
              ≡ record_address (times 3) id host r3 =
            rw (s, ok, n, ← ok, e1) refl in
          subst (IsRecorded o (times 0) id host x rows) (sym to) (
            record q3 { addrs = host; last_seen = times 3; is_static = max q3.is_static 0 },
            record_address-find (times 3) id host r3 q3 n a f3,
            Recorded-address_kept o (times 0) (find_peer rows id) q3 host (times 3)
                (max q3.is_static 0) kept,
            hn3,
            vn3,
            inr refl,
            (λ j d. record_address-Spares (times 3) id host r3 j d ∙ sp3 j d),
          )
      | inr (e, bad) ↦
          let to : exchange marshal times node_id id host x rows ≡ r3 =
            rw (s, bad, n, ← bad, e1) refl in
          subst (IsRecorded o (times 0) id host x rows) (sym to)
            (q3, f3, kept, hn3, vn3, inl (λ ok. cc), sp3)
    ]
