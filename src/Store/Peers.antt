-- ===== src/Store/Peers.antt =====
-- What a node knows of its peers. SavePeer, RecordConvergence, SavePeerHostname and SavePeerVersion
-- of internal/store/records.go
use agentic_stats.Prelude.{
  ℕ, ◌≡◌, ◌≢◌, refl, sym, ap, ◌∙◌, Bool, false, Option, none, some, List, [], ◌∷◌, String, str_eq,
  str_eq_refl, eq_iff, max, if◌then◌else◌, Bool-cases, inl, inr,
}

-- A row of the peers table; the addresses are one text.
pub record PeerRow : Type 0 where
  pub peer_id : String
  pub addrs : String
  pub last_seen : String
  pub is_static : ℕ
  pub last_converged : Option String
  pub last_error : Option String
  pub last_vector : Option String
  pub hostname : Option String
  pub version : Option String

abbrev pub Rows : Type 0
Rows = List PeerRow

-- The row of a peer by its primary key.
unfoldable pub find_peer : Rows → String → Option PeerRow
find_peer [] id = none
find_peer (p ∷ rows) id = if str_eq p.peer_id id then some p else find_peer rows id

-- INSERT … ON CONFLICT (peer_id) DO UPDATE SET …
unfoldable pub upsert : PeerRow → (PeerRow → PeerRow) → Rows → Rows
upsert new change [] = new ∷ []
upsert new change (p ∷ rows) =
    let rest = upsert new change rows in
    if str_eq p.peer_id new.peer_id then change p ∷ rows else p ∷ rest

unfoldable pub coalesce : Option String → Option String → Option String
coalesce (some a) b = some a
coalesce none b = b

abbrev pub first_heard : String → String → PeerRow
first_heard id now = record {
  peer_id = id;
  addrs = "";
  last_seen = now;
  is_static = 0;
  last_converged = none;
  last_error = none;
  last_vector = none;
  hostname = none;
  version = none;
}

-- `addrs` is strings.Join of the addresses, and `none` the error that a peer id is required.
unfoldable pub save_peer : String → Bool → String → String → Rows → Option Rows
save_peer id is_static addrs now rows =
    let static_flag = if is_static then 1 else 0 in
    if str_eq id ""
    then none
    else some (
        upsert (record (first_heard id now) { addrs = addrs; is_static = static_flag })
          (λ p. record p {
            addrs = addrs;
            last_seen = now;
            is_static = max p.is_static static_flag;
          })
          rows)

-- What an exchange came to: the vector, or the error's text.
pub data Outcome : Type 0 where
  converged : String → Outcome
  failed : String → Outcome

unfoldable pub convergence_of : Outcome → String → Option String
convergence_of (converged v) now = some now
convergence_of (failed e) now = none

unfoldable pub error_of : Outcome → Option String
error_of (converged v) = none
error_of (failed e) = some e

unfoldable pub vector_of : Outcome → Option String
vector_of (converged v) = some v
vector_of (failed e) = none

unfoldable pub record_convergence : String → Outcome → String → Rows → Option Rows
record_convergence id o now rows =
    if str_eq id ""
    then none
    else some (
        upsert
          (record (first_heard id now) {
            last_converged = convergence_of o now;
            last_error = error_of o;
            last_vector = vector_of o;
          })
          (λ p. record p {
            last_seen = now;
            last_converged = coalesce (convergence_of o now) p.last_converged;
            last_error = error_of o;
            last_vector = coalesce (vector_of o) p.last_vector;
          })
          rows)

unfoldable pub save_peer_hostname : String → String → String → Rows → Option Rows
save_peer_hostname id name now rows =
    if str_eq id ""
    then none
    else if str_eq name ""
    then some rows
    else some (
        upsert (record (first_heard id now) { hostname = some name })
          (λ p. record p { hostname = some name }) rows)

unfoldable pub save_peer_version : String → String → String → Rows → Option Rows
save_peer_version id version now rows =
    if str_eq id ""
    then none
    else if str_eq version ""
    then some rows
    else some (
        upsert (record (first_heard id now) { version = some version })
          (λ p. record p { version = some version }) rows)

unfoldable pub merged : PeerRow → (PeerRow → PeerRow) → Option PeerRow → PeerRow
merged new change none = new
merged new change (some p) = change p

pub find_peer-upsert :
    (new : PeerRow) (change : PeerRow → PeerRow) (rows : Rows)
    → ((p : PeerRow) → (change p).peer_id ≡ p.peer_id)
    → find_peer (upsert new change rows) new.peer_id
      ≡ some (merged new change (find_peer rows new.peer_id))
unfolding find_peer upsert merged
find_peer-upsert new change [] k = rw (str_eq_refl new.peer_id) refl
find_peer-upsert new change (p ∷ rows) k = elim (Bool-cases (str_eq p.peer_id new.peer_id)) [
  | inl e ↦ rw (e, k p, e) refl
  | inr e ↦ rw (e, e) (find_peer-upsert new change rows k)
]

differs : (a b : String) → a ≢ b → str_eq a b ≡ false
differs a b h = elim (Bool-cases (str_eq a b)) [ inl e ↦ absurd (h ((eq_iff a b).0 e)) | inr e ↦ e ]

pub find_peer-upsert_other :
    (new : PeerRow) (change : PeerRow → PeerRow) (rows : Rows) (id : String)
    → ((p : PeerRow) → (change p).peer_id ≡ p.peer_id)
    → new.peer_id ≢ id
    → find_peer (upsert new change rows) id ≡ find_peer rows id
unfolding find_peer upsert
find_peer-upsert_other new change [] id k h = rw (differs new.peer_id id h) refl
find_peer-upsert_other new change (p ∷ rows) id k h =
    elim (Bool-cases (str_eq p.peer_id new.peer_id)) [
      | inl e ↦
          let apart : str_eq p.peer_id id ≡ false =
            differs p.peer_id id (λ same. h (sym ((eq_iff p.peer_id new.peer_id).0 e) ∙ same)) in
          rw (e, k p, apart) refl
      | inr e ↦
          rw (e, find_peer)
            (ap (λ x. if str_eq p.peer_id id then some p else x)
              (find_peer-upsert_other new change rows id k h))
    ]

-- A column of a row, NULL where there is no row.
abbrev pub column : (PeerRow → Option String) → Option PeerRow → Option String
column f none = none
column f (some p) = f p

-- The row after an exchange, given the one before: a success clears the error, a failure leaves the
-- last success.
abbrev pub Recorded : Outcome → String → Option PeerRow → PeerRow → Type 0
Recorded (converged v) now before q =
    (q.last_converged ≡ some now) × (q.last_error ≡ none) × (q.last_vector ≡ some v)
Recorded (failed e) now before q =
    (q.last_converged ≡ column (λ p. p.last_converged) before)
    × (q.last_error ≡ some e)
    × (q.last_vector ≡ column (λ p. p.last_vector) before)

-- After an exchange with a named peer its row says what came of it, and keeps the name and version
-- that the peer gave; every other peer's row is as it was.
pub record_convergence-Recorded :
    (id : String) (o : Outcome) (now : String) (rows : Rows)
    → str_eq id "" ≡ false
    → (after : Rows) × (q : PeerRow) × (record_convergence id o now rows ≡ some after)
      × (find_peer after id ≡ some q)
      × Recorded o now (find_peer rows id) q
      × (q.hostname ≡ column (λ p. p.hostname) (find_peer rows id))
      × (q.version ≡ column (λ p. p.version) (find_peer rows id))
      × ((j : String) → id ≢ j → find_peer after j ≡ find_peer rows j)
unfolding record_convergence convergence_of error_of vector_of coalesce merged
record_convergence-Recorded id o now rows h =
    let new = record (first_heard id now) {
      last_converged = convergence_of o now;
      last_error = error_of o;
      last_vector = vector_of o;
    } in
    let change : PeerRow → PeerRow = λ p. record p {
      last_seen = now;
      last_converged = coalesce (convergence_of o now) p.last_converged;
      last_error = error_of o;
      last_vector = coalesce (vector_of o) p.last_vector;
    } in
    let (a, b, c) = row o (find_peer rows id) in
    (
      upsert new change rows,
      merged new change (find_peer rows id),
      rw h refl,
      find_peer-upsert new change rows (λ p. refl),
      a,
      b,
      c,
      λ j apart. find_peer-upsert_other new change rows j (λ p. refl) apart,
    )
  where
    row :
        (o : Outcome) (before : Option PeerRow)
        → let q =
            merged
              (record (first_heard id now) {
                last_converged = convergence_of o now;
                last_error = error_of o;
                last_vector = vector_of o;
              })
              (λ p. record p {
                last_seen = now;
                last_converged = coalesce (convergence_of o now) p.last_converged;
                last_error = error_of o;
                last_vector = coalesce (vector_of o) p.last_vector;
              })
              before in
          Recorded o now before q
          × (q.hostname ≡ column (λ p. p.hostname) before)
          × (q.version ≡ column (λ p. p.version) before)
    row (converged v) none = ((refl, refl, refl), refl, refl)
    row (converged v) (some p) = ((refl, refl, refl), refl, refl)
    row (failed e) none = ((refl, refl, refl), refl, refl)
    row (failed e) (some p) = ((refl, refl, refl), refl, refl)
