-- ===== src/Mesh/Beacon.antt =====
-- The announcements on the local network. internal/mesh/beacon/beacon.go
pub mod Accepted
use agentic_stats.Prelude.{
  ℕ, zero, suc, ◌/◌, Bool, true, false, not, ◌&&◌, ◌||◌, Option, none, some, List, [], ◌∷◌, ◌++◌,
  map, ltb, ◌==◌, if◌then◌else◌, any, is_empty,
}
use agentic_stats.Bridge.Key.{bytes_eq}

abbrev pub Text : Type 0
Text = List ℕ

abbrev pub epoch_seconds : ℕ
epoch_seconds = 300

pub record Packet : Type 0 where
  pub epoch : ℕ
  pub nonce : Text
  pub node_id : Text
  pub port : ℕ
  pub addrs : List Text
  pub tag : Text

pub record Sighted : Type 0 where
  pub node_id : Text
  pub addrs : List Text

-- Keys.BeaconTag, net.JoinHostPort on a decimal port, and json.Unmarshal.
pub record Keys : Type 0 where
  pub beacon_tag : ℕ → Text → Text → Text → Text
  pub join_host_port : Text → ℕ → Text
  pub unmarshal : Text → Option Packet

unfoldable pub text_before : Text → Text → Bool
text_before [] t = true
text_before (c ∷ s) [] = false
text_before (c ∷ s) (d ∷ t) = ltb c d || ((c == d) && text_before s t)

unfoldable pub insert_text : Text → List Text → List Text
insert_text s [] = s ∷ []
insert_text s (t ∷ ts) =
    let rest = insert_text s ts in if text_before s t then s ∷ t ∷ ts else t ∷ rest

-- slices.Sort
unfoldable pub sort_texts : List Text → List Text
sort_texts [] = []
sort_texts (s ∷ ts) = insert_text s (sort_texts ts)

unfoldable pub join_loop : List Text → Text
join_loop [] = []
join_loop (a ∷ addrs) = a ++ b';' ∷ join_loop addrs

unfoldable pub join_addrs : List Text → Text
join_addrs addrs = join_loop (sort_texts addrs)

-- `build`, at a Unix time in seconds, for the addresses and the nonce that were drawn.
unfoldable pub build : Keys → Text → ℕ → ℕ → Text → List Text → Packet
build keys node_id sync_port unix nonce addrs =
    let epoch = unix / epoch_seconds in
    record {
      epoch = epoch;
      nonce = nonce;
      node_id = node_id;
      port = sync_port;
      addrs = addrs;
      tag = keys.beacon_tag epoch nonce node_id (join_addrs addrs);
    }

unfoldable pub epochs_around : ℕ → List ℕ
epochs_around zero = 0 ∷ 1 ∷ []
epochs_around (suc k) = k ∷ suc k ∷ suc (suc k) ∷ []

-- The loop over the epochs.
unfoldable pub is_tagged : Keys → Packet → List ℕ → Bool
is_tagged keys p [] = false
is_tagged keys p (epoch ∷ epochs) =
    let want = keys.beacon_tag epoch p.nonce p.node_id (join_addrs p.addrs) in
    (bytes_eq p.tag want && (p.epoch == epoch)) || is_tagged keys p epochs

-- The address that the packet came from is added, where it is known and not among them.
unfoldable pub with_observed : Keys → ℕ → Option Text → List Text → List Text
with_observed keys port none addrs = addrs
with_observed keys port (some host) addrs =
    let observed = keys.join_host_port host port in
    if any (bytes_eq observed) addrs then addrs else addrs ++ observed ∷ []

-- `verify` on a packet that was read, from a host that net.SplitHostPort gives.
unfoldable pub verify_packet : Keys → ℕ → Packet → Option Text → Option Sighted
verify_packet keys unix p source =
    if not (is_tagged keys p (epochs_around (unix / epoch_seconds)))
      || (is_empty p.node_id || (p.port == 0))
    then none
    else some (record {
      node_id = p.node_id;
      addrs = with_observed keys p.port source (map (λ a. keys.join_host_port a p.port) p.addrs);
    })

unfoldable pub verify : Keys → ℕ → Text → Option Text → Option Sighted
verify keys unix body source = elim (keys.unmarshal body) [
  | none ↦ none
  | some p ↦ verify_packet keys unix p source
]
