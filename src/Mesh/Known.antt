-- ===== src/Mesh/Known.antt =====
-- Which peers are reported as known. KnownPeers, withoutRedundantPlaceholders and hostsOverlap of
-- internal/mesh/mesh.go
use agentic_stats.Prelude.{
  ◌≡◌, refl, sym, ap, subst, ◌∙◌, ◌↔◌, Bool, true, false, not, ◌⊎◌, inl, inr, Option, none, some,
  List, [], ◌∷◌, ◌++◌, arith, String, str_eq, eq_iff, if◌then◌else◌, any, select, codes, is_prefix,
  Bool-cases, ◌≢◌, In, In-append, In-append-left, In-append-right, any-In, any_some, In-select,
  select-In,
}
use agentic_stats.Mesh.Health.{Peer, host_of}

abbrev pub static_prefix : String
static_prefix = "static:"

unfoldable pub is_placeholder : Peer → Bool
is_placeholder p = is_prefix (codes static_prefix) (codes p.id)

-- The addresses of the peers that are on record under an id of their own.
unfoldable pub answered : List Peer → List String
answered [] = []
answered (p ∷ peers) =
    let rest = answered peers in if is_placeholder p then rest else p.addrs ++ rest

-- `split` is the host of net.SplitHostPort, and `none` its error.
unfoldable pub hosts_overlap : (String → Option String) → String → List String → Bool
hosts_overlap split addr others =
    any (λ a. str_eq (host_of a (split a)) (host_of addr (split addr))) others

unfoldable pub is_redundant : (String → Option String) → List String → Peer → Bool
is_redundant split others p =
    if is_placeholder p then any (λ a. hosts_overlap split a others) p.addrs else false

unfoldable pub without_redundant_placeholders : (String → Option String) → List Peer → List Peer
without_redundant_placeholders split peers =
    select (λ p. not (is_redundant split (answered peers) p)) peers

-- KnownPeers; `none` is a store that cannot be read.
unfoldable pub known_peers :
    (String → Option String) → String → Option (List Peer) → Option (List Peer)
known_peers split node_id none = none
known_peers split node_id (some peers) =
    some (without_redundant_placeholders split (select (λ p. not (str_eq p.id node_id)) peers))

abbrev pub host : (String → Option String) → String → String
host split a = host_of a (split a)

-- Some machine that goes by an id of its own has an address on the host of one of the peer's.
abbrev pub Introduced : (String → Option String) → List Peer → Peer → Type 0
Introduced split peers p =
    (q : Peer) × In q peers
    × (is_placeholder q ≡ false)
    × ((a : String) × In a p.addrs × ((b : String) × In b q.addrs × (host split b ≡ host split a)))

answered-In :
    (peers : List Peer) (a : String)
    → In a (answered peers)
    → (q : Peer) × In q peers × (is_placeholder q ≡ false) × In a q.addrs
unfolding answered
answered-In [] a h = absurd h
answered-In (p ∷ peers) a h = elim (Bool-cases (is_placeholder p)) [
  | inl e ↦ let (q, i, k, m) = answered-In peers a (rw e at (h)) in (q, inr i, k, m)
  | inr e ↦ elim (In-append a p.addrs (answered peers) (rw e at (h))) [
    | inl m ↦ (p, inl refl, e, m)
    | inr m ↦ let (q, i, k, n) = answered-In peers a m in (q, inr i, k, n)
  ]
]

In-answered :
    (peers : List Peer) (q : Peer) (a : String)
    → In q peers
    → is_placeholder q ≡ false
    → In a q.addrs
    → In a (answered peers)
unfolding answered
In-answered [] q a i k m = absurd i
In-answered (p ∷ peers) q a (inl e) k m =
    rw (ap is_placeholder (sym e) ∙ k)
      (In-append-left a p.addrs (answered peers) (subst (λ x. In a x.addrs) e m))
In-answered (p ∷ peers) q a (inr i) k m =
    let later = In-answered peers q a i k m in
    elim (Bool-cases (is_placeholder p)) [
      | inl e ↦ rw e later
      | inr e ↦ rw e (In-append-right a p.addrs (answered peers) later)
    ]

redundant_iff :
    (split : String → Option String) (peers : List Peer) (p : Peer)
    → is_placeholder p ≡ true
    → (is_redundant split (answered peers) p ≡ true) ↔ Introduced split peers p
unfolding is_redundant hosts_overlap
redundant_iff split peers p k = (
  (λ h.
      let (a, i, o) =
        any_some (λ a. hosts_overlap split a (answered peers)) p.addrs (rw k at (h)) in
      let (b, j, e) = any_some _ (answered peers) o in
      let (q, iq, kq, m) = answered-In peers b j in
      (q, iq, kq, (a, i, (b, m, (eq_iff (host split b) (host split a)).0 e)))),
  (λ (q, iq, kq, (a, i, (b, m, e))). rw k (
      any-In (λ a. hosts_overlap split a (answered peers)) p.addrs a i
        (any-In (λ b. str_eq (host split b) (host split a)) (answered peers) b
          (In-answered peers q b iq kq m) ((eq_iff (host split b) (host split a)).1 e)))),
)

-- The peers that are reported are those on record but the node itself, without the configured
-- addresses whose host some machine with an id of its own has answered from.
pub known_peers_iff :
    (split : String → Option String) (node_id : String) (peers : List Peer) (p : Peer)
    → let others = select (λ q. not (str_eq q.id node_id)) peers in
      (out : List Peer) × (known_peers split node_id (some peers) ≡ some out)
      × (In p out ↔ (
          In p peers
          × (p.id ≢ node_id)
          × ((is_placeholder p ≡ false) ⊎ (¬ Introduced split others p))))
unfolding known_peers without_redundant_placeholders is_redundant
known_peers_iff split node_id peers p = (
  without_redundant_placeholders split others,
  refl,
  (
    (λ h.
        let (i, k) = In-select keep others p h in
        let (j, d) = In-select apart peers p i in
        (
          j,
          (λ e. differ_at (p.id) node_id ((eq_iff p.id node_id).1 e) d),
          elim (Bool-cases (is_placeholder p)) [
            | inl ph ↦ inr (λ intro.
                differ_at_bool (is_redundant split (answered others) p)
                  ((redundant_iff split others p ph).1 intro) k)
            | inr ph ↦ inl ph
          ],
        )),
    (λ (i, d, n).
        select-In keep others p (select-In apart peers p i (not_self d))
          (elim (Bool-cases (is_redundant split (answered others) p)) [
            | inl r ↦ absurd (
                excluded n (placeholder_of r)
                  ((redundant_iff split others p (placeholder_of r)).0 r))
            | inr r ↦ rw r refl
          ])),
  ),
)
  where
    apart : Peer → Bool
    apart q = not (str_eq q.id node_id)

    others : List Peer
    others = select apart peers

    keep : Peer → Bool
    keep q = not (is_redundant split (answered others) q)

    differ_at_bool : (b : Bool) → b ≡ true → not b ≡ true → ⊥
    differ_at_bool b h k = ground arith

    differ_at : (a b : String) → str_eq a b ≡ true → not (str_eq a b) ≡ true → ⊥
    differ_at a b h k = differ_at_bool (str_eq a b) h k

    excluded :
        (is_placeholder p ≡ false) ⊎ (¬ Introduced split others p)
        → is_placeholder p ≡ true
        → ¬ Introduced split others p
    excluded (inl f) ph i = ground arith
    excluded (inr n) ph i = n i

    not_self : p.id ≢ node_id → apart p ≡ true
    not_self d = elim (Bool-cases (str_eq p.id node_id)) [
      | inl e ↦ absurd (d ((eq_iff p.id node_id).0 e))
      | inr e ↦ rw e refl
    ]

    not_placeholder :
        is_placeholder p ≡ false
        → is_redundant split (answered others) p ≡ true
        → is_placeholder p ≡ true
    not_placeholder e r = ground arith

    placeholder_of : is_redundant split (answered others) p ≡ true → is_placeholder p ≡ true
    placeholder_of r = elim (Bool-cases (is_placeholder p)) [
      | inl e ↦ e
      | inr e ↦ not_placeholder e r
    ]
