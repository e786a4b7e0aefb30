-- ===== src/Mesh/Beacon/Accepted.antt =====
-- Which announcements are taken. internal/mesh/beacon/beacon.go
use agentic_stats.Prelude.{
  ℕ, zero, suc, ◌+◌, ◌/◌, ◌≤◌, ◌<◌, ◌≡◌, ◌⊎◌, refl, sym, ap, ◌∙◌, Bool, true, false, ◌&&◌, inl, inr,
  Option, none, some, List, map, arith, ◌==◌, ==_iff, leb, is_empty, Bool-cases,
}
use agentic_stats.Bridge.Key.{bytes_eq}
use agentic_stats.Bridge.Key.Reading.{bytes_eq_refl, bytes_eq_sound}
use agentic_stats.Mesh.Beacon.{
  Text, epoch_seconds, Packet, Sighted, Keys, join_addrs, build, epochs_around, is_tagged,
  with_observed, verify_packet, verify,
}

-- The tag of a packet for the epoch that it names.
abbrev pub IsTagged : Keys → Packet → Type 0
IsTagged keys p = p.tag ≡ keys.beacon_tag p.epoch p.nonce p.node_id (join_addrs p.addrs)

one_epoch :
    (keys : Keys) (p : Packet) (epoch : ℕ)
    → (bytes_eq p.tag (keys.beacon_tag epoch p.nonce p.node_id (join_addrs p.addrs))
        && (p.epoch == epoch))
      ≡ (bytes_eq p.tag (keys.beacon_tag p.epoch p.nonce p.node_id (join_addrs p.addrs))
          && (p.epoch == epoch))
one_epoch keys p epoch = elim (Bool-cases (p.epoch == epoch)) [
  | inl e ↦
      ap
        (λ n.
          bytes_eq p.tag (keys.beacon_tag n p.nonce p.node_id (join_addrs p.addrs))
          && (p.epoch == epoch))
        (sym ((==_iff p.epoch epoch).0 e))
  | inr e ↦ rw e (ground arith)
]

is_tagged_lem :
    (keys : Keys) (p : Packet) (n : ℕ)
    → is_tagged keys p (epochs_around n) ≡ (
        bytes_eq p.tag (keys.beacon_tag p.epoch p.nonce p.node_id (join_addrs p.addrs))
        && (leb p.epoch (n + 1) && leb n (p.epoch + 1)))
unfolding is_tagged epochs_around
is_tagged_lem keys p zero = ground (arith, one_epoch keys p 0, one_epoch keys p 1)
is_tagged_lem keys p (suc k) =
    ground (arith, one_epoch keys p k, one_epoch keys p (suc k), one_epoch keys p (suc (suc k)))

-- What makes a packet one of the mesh, about now, that can be dialled.
abbrev pub IsAcceptable : Keys → ℕ → Packet → Type 0
IsAcceptable keys unix p =
    IsTagged keys p
    × (p.epoch ≤ unix / epoch_seconds + 1)
    × (unix / epoch_seconds ≤ p.epoch + 1)
    × (is_empty p.node_id ≡ false)
    × (0 < p.port)

-- The node of a packet at its addresses, all at its port, with the one it came from.
abbrev pub sighted : Keys → Packet → Option Text → Sighted
sighted keys p source = record {
  node_id = p.node_id;
  addrs = with_observed keys p.port source (map (λ a. keys.join_host_port a p.port) p.addrs);
}

-- A packet gives a sighting, of its node at its addresses, where its tag is that of the epoch it
-- names, that epoch is the current one or next to it, and it names a node and a port; and otherwise
-- it gives none.
pub verify_packet_lem :
    (keys : Keys) (unix : ℕ) (p : Packet) (source : Option Text)
    → IsAcceptable keys unix p × (verify_packet keys unix p source ≡ some (sighted keys p source))
      ⊎ (IsAcceptable keys unix p → ⊥) × (verify_packet keys unix p source ≡ none)
unfolding verify_packet
verify_packet_lem keys unix p source =
    let n = unix / epoch_seconds in
    let want = keys.beacon_tag p.epoch p.nonce p.node_id (join_addrs p.addrs) in
    let tagged = is_tagged_lem keys p n in
    elim (Bool-cases (bytes_eq p.tag want)) [
      | inr t ↦
          let not_tagged : is_tagged keys p (epochs_around n) ≡ false = tagged ∙ rw t refl in
          inr (
            (λ h.
                clash (bytes_eq p.tag want) (ap (bytes_eq p.tag) (sym h.0) ∙ bytes_eq_refl p.tag)
                  t),
            rw not_tagged refl,
          )
      | inl t ↦ elim (Bool-cases (leb p.epoch (n + 1) && leb n (p.epoch + 1))) [
        | inr k ↦
            let not_tagged : is_tagged keys p (epochs_around n) ≡ false = tagged ∙ rw (t, k) refl in
            inr ((λ h. clash _ (about p.epoch n h.1 h.2) k), rw not_tagged refl)
        | inl k ↦
            let yes : is_tagged keys p (epochs_around n) ≡ true = tagged ∙ rw (t, k) refl in
            elim (Bool-cases (is_empty p.node_id)) [
              | inl m ↦ inr ((λ h. clash (is_empty p.node_id) m h.3), rw (yes, m) refl)
              | inr m ↦ elim (Bool-cases (p.port == 0)) [
                | inl z ↦ inr ((λ h. clash (p.port == 0) z (above p.port h.4)), rw (yes, m, z) refl)
                | inr z ↦ inl (
                  (
                    bytes_eq_sound p.tag want t,
                    near_first p.epoch n k,
                    near_second p.epoch n k,
                    m,
                    port_above p.port z,
                  ),
                  rw (yes, m, z) refl,
                )
              ]
            ]
      ]
    ]
  where
    about : (e n : ℕ) → e ≤ n + 1 → n ≤ e + 1 → (leb e (n + 1) && leb n (e + 1)) ≡ true
    about e n a b = ground (arith, a, b)

    above : (k : ℕ) → 0 < k → (k == 0) ≡ false
    above k a = ground (arith, a)

    near_first : (e n : ℕ) → (leb e (n + 1) && leb n (e + 1)) ≡ true → e ≤ n + 1
    near_first e n k = ground (arith, k)

    near_second : (e n : ℕ) → (leb e (n + 1) && leb n (e + 1)) ≡ true → n ≤ e + 1
    near_second e n k = ground (arith, k)

    port_above : (k : ℕ) → (k == 0) ≡ false → 0 < k
    port_above k z = ground (arith, z)

    clash : (b : Bool) → b ≡ true → b ≡ false → ⊥
    clash b x y = ground arith

-- A packet that a node builds is taken by every node with the key whose clock is not more than an
-- epoch off, whatever port above 0 it carries by then.
pub verify-build :
    (keys : Keys) (node_id nonce body : Text) (sync_port port unix now : ℕ) (addrs : List Text)
    → (source : Option Text) → unix ≤ now + epoch_seconds
    → now ≤ unix + epoch_seconds
    → is_empty node_id ≡ false
    → 0 < port
    → let p = record (build keys node_id sync_port unix nonce addrs) { port = port } in
      keys.unmarshal body ≡ some p → verify keys now body source ≡ some (sighted keys p source)
unfolding verify build
verify-build keys node_id nonce body sync_port port unix now addrs source a b m q u =
    let p = record (build keys node_id sync_port unix nonce addrs) { port = port } in
    rw (verify, u)
      (elim (verify_packet_lem keys now p source) [
        | inl (c, e) ↦ e
        | inr (never, e) ↦ absurd (never (refl, omega (arith, a), omega (arith, b), m, q))
      ])
