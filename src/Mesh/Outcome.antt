-- ===== src/Mesh/Outcome.antt =====
-- What a node records of an exchange. exchange, recordOutcome, recordPeerHost, recordPeerVersion,
-- discovered and seedStaticPeers of internal/mesh/mesh.go
pub mod After
use agentic_stats.Prelude.{
  ℕ, ◌≡◌, ◌≢◌, refl, sym, ap, subst, ◌∙◌, Bool, true, false, ◌||◌, Option, none, some, List, [],
  ◌∷◌, String, str_eq, eq_iff, if◌then◌else◌, is_empty, inl, inr, Bool-cases,
}
use agentic_stats.Store.Query.{VersionVector}
use agentic_stats.Store.Peers.{
  PeerRow, Rows, Outcome, converged, failed, find_peer, save_peer, record_convergence,
  save_peer_hostname, save_peer_version, column,
}

-- A store operation that fails is only logged: the table stays as it is.
unfoldable pub or_kept : Rows → Option Rows → Rows
or_kept rows none = rows
or_kept rows (some after) = after

-- What syncer.Exchange gave: its statistics as far as they are recorded, and its error.
pub record Exchanged : Type 0 where
  pub peer_vector : VersionVector
  pub peer_host : String
  pub peer_version : String
  pub error : Option String

-- json.Marshal of a vector, `none` its error.
unfoldable pub encoded_vector : (VersionVector → Option String) → VersionVector → String
encoded_vector marshal vec =
    if is_empty vec then "" else elim (marshal vec) [ none ↦ "" | some s ↦ s ]

unfoldable pub outcome_of : String → Option String → Outcome
outcome_of encoded none = converged encoded
outcome_of encoded (some e) = failed e

unfoldable pub record_outcome :
    (VersionVector → Option String) → String → String → VersionVector → Option String → Rows → Rows
record_outcome marshal now peer_id vec error rows =
    if str_eq peer_id ""
    then rows
    else or_kept rows
        (record_convergence peer_id (outcome_of (encoded_vector marshal vec) error) now rows)

unfoldable pub record_peer_host : String → String → String → Rows → Rows
record_peer_host now peer_id host rows =
    if str_eq peer_id "" || str_eq host ""
    then rows
    else or_kept rows (save_peer_hostname peer_id host now rows)

unfoldable pub record_peer_version : String → String → String → Rows → Rows
record_peer_version now peer_id version rows =
    if str_eq peer_id "" || str_eq version ""
    then rows
    else or_kept rows (save_peer_version peer_id version now rows)

-- SavePeer of the address that the connection came from, if it has one.
unfoldable pub record_address : String → String → String → Rows → Rows
record_address now peer_id host rows =
    if str_eq host "" then rows else or_kept rows (save_peer peer_id false host now rows)

-- exchange, from the proven id of the peer and the text of its remote address on; `times i` is what
-- the i-th store operation writes as its time.
unfoldable pub exchange :
    (VersionVector → Option String)
    → (ℕ → String)
    → String
    → String
    → String
    → Exchanged
    → Rows
    → Rows
exchange marshal times node_id peer_id host x rows =
    let told = record_peer_version (times 2) peer_id x.peer_version (
      record_peer_host (times 1) peer_id x.peer_host
        (record_outcome marshal (times 0) peer_id x.peer_vector x.error rows)) in
    if str_eq peer_id node_id
    then rows
    else elim x.error [ none ↦ record_address (times 3) peer_id host told | some e ↦ told ]
