-- ===== src/Mesh/Health.antt =====
-- How far a peer is from this node. internal/mesh/health.go
use agentic_stats.Prelude.{
  not, select, ℕ, ◌+◌, ◌-◌, ◌/◌, ◌≤◌, ◌<◌, ◌≡◌, refl, sym, subst, ap, ap₂, ◌∙◌, Bool, true, false,
  inl, inr, ◌↔◌, Option, none, some, List, [], ◌∷◌, map, arith, String, str_eq, str_eq_refl, eq_iff,
  if◌then◌else◌, ltb, ltb-eq_false, lt→ltb, Bool-cases,
}
use agentic_stats.Store.Query.{VersionVector, seq_at}

pub data Reach : Type 0 where
  unknown : Reach
  current : Reach
  stale : Reach
  failing : Reach

unfoldable pub is_current : Reach → Bool
is_current current = true
is_current _ = false

pub record Address : Type 0 where
  pub addr : String
  pub name : String

-- store.Peer, as far as it is read here.
pub record Peer : Type 0 where
  pub id : String
  pub hostname : String
  pub version : String
  pub addrs : List String
  pub is_static : Bool
  pub last_seen : String
  pub last_converged : String
  pub last_error : String
  pub last_vector : String

pub record PeerHealth : Type 0 where
  pub id : String
  pub host : String
  pub version : String
  pub addrs : List Address
  pub is_static : Bool
  pub reach : Reach
  pub last_seen : String
  pub last_converged : String
  pub since_converged : ℕ
  pub last_error : String
  pub behind : ℕ
  pub ahead : ℕ

-- An hour, in nanoseconds.
abbrev pub stale_after : ℕ
stale_after = 3600000000000

abbrev pub second : ℕ
second = 1000000000

-- What is asked of Go's library: json.Unmarshal of a vector, time.Parse in nanoseconds, the host of
-- net.SplitHostPort, and the time now; and the name on record for a host.
pub record Env : Type 0 where
  pub parse_vector : String → Option VersionVector
  pub parse_time : String → Option ℕ
  pub split_host : String → Option String
  pub now : ℕ
  pub names : String → String

-- The sum, over a vector's origins, of what another vector lacks.
unfoldable pub missing : VersionVector → VersionVector → ℕ
missing mine [] = 0
missing mine ((origin, their_seq) ∷ theirs) = (their_seq - seq_at mine origin) + missing mine theirs

unfoldable pub compared : VersionVector → Option VersionVector → ℕ × ℕ
compared mine none = (0, 0)
compared mine (some theirs) = (missing mine theirs, missing theirs mine)

-- How many records are lacking here, and how many there.
unfoldable pub lag : Env → VersionVector → String → ℕ × ℕ
lag env mine peer_vector =
    if str_eq peer_vector "" then (0, 0) else compared mine (env.parse_vector peer_vector)

unfoldable pub host_of : String → Option String → String
host_of addr none = addr
host_of addr (some h) = h

unfoldable pub addresses : Env → List String → List Address
addresses env addrs =
    map (λ a. record { addr = a; name = env.names (host_of a (env.split_host a)) }) addrs

-- The first switch.
unfoldable pub reach_of : String → String → Reach
reach_of last_converged last_error =
    if str_eq last_converged "" then unknown else if str_eq last_error "" then current else failing

-- The second part: how long ago that was, never negative.
unfoldable pub aged : Reach → ℕ → Option ℕ → Reach × ℕ
aged reach now none = (reach, 0)
aged reach now (some at) =
    let since = now - at in
    (
      if ltb stale_after since then (if is_current reach then stale else reach) else reach,
      since / second,
    )

unfoldable pub peer_health : Env → VersionVector → Peer → PeerHealth
peer_health env mine p =
    let reach = reach_of p.last_converged p.last_error in
    let r =
      if str_eq p.last_converged ""
      then (reach, 0)
      else aged reach env.now (env.parse_time p.last_converged) in
    let l = lag env mine p.last_vector in
    record {
      id = p.id;
      host = p.hostname;
      version = p.version;
      addrs = addresses env p.addrs;
      is_static = p.is_static;
      reach = r.0;
      last_seen = p.last_seen;
      last_converged = p.last_converged;
      since_converged = r.1;
      last_error = p.last_error;
      behind = l.0;
      ahead = l.1;
    }

pub record Health : Type 0 where
  pub node_id : String
  pub peers : List PeerHealth
  pub quarantined : ℕ

-- The report, from what the mesh and the store answer; `none` is the error of the first that fails.
-- The names are among the arguments, and `names_read` is whether they could be read.
unfoldable pub health :
    Env → String → Option (List Peer) → Option VersionVector → Option ℕ → Bool → Option Health
health env node_id (some peers) (some mine) (some quarantined) true = some record {
  node_id = node_id;
  peers = map (peer_health env mine) peers;
  quarantined = quarantined;
}
health env node_id _ _ _ _ = none

unfoldable pub reach_text : Reach → String
reach_text current = "current"
reach_text stale = "stale"
reach_text failing = "failing"
reach_text unknown = "never converged"

-- PeerVersions of internal/store/records.go: what the peers that said something run.
unfoldable pub peer_versions : Option (List Peer) → Option (List String)
peer_versions none = none
peer_versions (some peers) = some (select (λ v. not (str_eq v "")) (map (λ p. p.version) peers))

-- A map lists each origin once.
abbrev pub IsMap : VersionVector → Type 0
IsMap [] = Unit
IsMap ((o, n) ∷ v) = (seq_at v o ≡ 0) × IsMap v

missing_zero :
    (mine theirs : VersionVector)
    → missing mine theirs ≡ 0
    → (o : String) → seq_at theirs o ≤ seq_at mine o
unfolding missing seq_at
missing_zero mine [] h o = omega arith
missing_zero mine ((p, n) ∷ v) h o = elim (Bool-cases (str_eq p o)) [
  | inl e ↦ rw e (subst (λ x. n ≤ seq_at mine x) ((eq_iff p o).0 e) (omega (arith, h)))
  | inr e ↦ rw e (missing_zero mine v (omega (arith, h)) o)
]

zero_missing :
    (mine theirs : VersionVector)
    → IsMap theirs
    → ((o : String) → seq_at theirs o ≤ seq_at mine o)
    → missing mine theirs ≡ 0
unfolding missing seq_at
zero_missing mine [] m h = refl
zero_missing mine ((p, n) ∷ v) m h = omega (arith, zero_missing mine v m.1 later, first)
  where
    at_first : seq_at ((p, n) ∷ v) p ≡ n
    at_first = rw (str_eq_refl p) refl

    first : n ≤ seq_at mine p
    first = subst (λ x. x ≤ seq_at mine p) at_first (h p)

    later_at : (o : String) → str_eq p o ≡ false → seq_at ((p, n) ∷ v) o ≡ seq_at v o
    later_at o e = rw e refl

    later : (o : String) → seq_at v o ≤ seq_at mine o
    later o = elim (Bool-cases (str_eq p o)) [
      | inl e ↦
          let none : seq_at v o ≡ 0 = subst (λ x. seq_at v x ≡ 0) ((eq_iff p o).0 e) m.0 in
          omega (arith, none)
      | inr e ↦ subst (λ x. x ≤ seq_at mine o) (later_at o e) (h o)
    ]

-- For a peer's vector that can be read, where both list each origin once: nothing is lacking on
-- either side exactly when the vectors give the same number for every origin.
pub lag_zero :
    (env : Env) (mine theirs : VersionVector) (text : String)
    → IsMap mine
    → IsMap theirs
    → str_eq text "" ≡ false
    → env.parse_vector text ≡ some theirs
    → (lag env mine text ≡ (0, 0)) ↔ ((o : String) → seq_at mine o ≡ seq_at theirs o)
unfolding lag compared
lag_zero env mine theirs text m t e p =
    let to : lag env mine text ≡ (missing mine theirs, missing theirs mine) = rw (e, p) refl in
    (
      (λ z o.
          let a = missing_zero mine theirs (ap (λ x. x.0) (sym to ∙ z)) o in
          let b = missing_zero theirs mine (ap (λ x. x.1) (sym to ∙ z)) o in omega arith),
      (λ same.
          to
          ∙ ap₂ (λ x y. (x, y)) (zero_missing mine theirs t (λ o. omega (arith, same o)))
              (zero_missing theirs mine m (λ o. omega (arith, same o)))),
    )

aged_failing : (now : ℕ) (at : Option ℕ) → (aged failing now at).0 ≡ failing
unfolding aged is_current
aged_failing now none = refl
aged_failing now (some at) = ground arith

-- Which reach is reported of a peer that has converged, with an error, and without one when the
-- time is unreadable, at most an hour ago, or more; and of one that never has.
pub peer_health-reach :
    (env : Env) (mine : VersionVector) (p : Peer)
    → let r = (peer_health env mine p).reach in
      let ok = (str_eq p.last_converged "" ≡ false) × (str_eq p.last_error "" ≡ true) in
      (str_eq p.last_converged "" ≡ true → r ≡ unknown)
      × ((str_eq p.last_converged "" ≡ false) × (str_eq p.last_error "" ≡ false) → r ≡ failing)
      × (ok → env.parse_time p.last_converged ≡ none → r ≡ current)
      × ((at : ℕ)
          → ok
          → env.parse_time p.last_converged ≡ some at
          → env.now - at ≤ stale_after
          → r ≡ current)
      × ((at : ℕ)
          → ok
          → env.parse_time p.last_converged ≡ some at
          → stale_after < env.now - at
          → r ≡ stale)
unfolding peer_health reach_of aged is_current
peer_health-reach env mine p = (
  (λ c. rw c refl),
  (λ (c, f). rw (c, f) (aged_failing env.now (env.parse_time p.last_converged))),
  (λ (c, f) t. rw (c, f, t) refl),
  (λ at (c, f) t le. rw (c, f, t, ltb-eq_false stale_after (env.now - at) le) refl),
  (λ at (c, f) t lt. rw (c, f, t, lt→ltb stale_after (env.now - at) lt) refl),
)
