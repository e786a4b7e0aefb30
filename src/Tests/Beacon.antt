-- ===== src/Tests/Beacon.antt =====
-- internal/mesh/beacon/beacon.go
use agentic_stats.Prelude.{◌≡◌, ◌⊎◌, refl, ◌++◌, some, none, [], ◌∷◌, codes, arith}
use agentic_stats.Mesh.Beacon.{
  Packet, Keys, build, verify, verify_packet, join_addrs, join_loop, sort_texts, insert_text,
}
use agentic_stats.Mesh.Beacon.Accepted.{IsAcceptable, sighted, verify_packet_lem, verify-build}

abbrev announced : Packet
announced = record {
  epoch = 3;
  nonce = 7 ∷ [];
  node_id = codes "laptop";
  port = 9999;
  addrs = codes "10.0.0.1" ∷ [];
  tag = 3 ∷ (codes "laptop" ++ codes "10.0.0.1;");
}

abbrev keys : Keys
keys = record {
  beacon_tag = λ epoch nonce id addrs. epoch ∷ (id ++ addrs);
  join_host_port = λ host port. host ++ port ∷ [];
  unmarshal = λ body. some announced;
}

verify_packet_lem_example :
    IsAcceptable keys 1000 announced
      × (verify_packet keys 1000 announced none ≡ some (sighted keys announced none))
    ⊎ (IsAcceptable keys 1000 announced → ⊥) × (verify_packet keys 1000 announced none ≡ none)
verify_packet_lem_example = verify_packet_lem keys 1000 announced none

verify-build_example :
    verify keys 1200 [] (some (codes "10.0.0.9"))
    ≡ some (
        sighted keys
          (record (build keys (codes "laptop") 8844 1000 (7 ∷ []) (codes "10.0.0.1" ∷ [])) {
            port = 9999;
          })
          (some (codes "10.0.0.9")))
unfolding build join_addrs join_loop sort_texts insert_text
verify-build_example =
    verify-build keys (codes "laptop") (7 ∷ []) [] 8844 9999 1000 1200 (codes "10.0.0.1" ∷ [])
      (some (codes "10.0.0.9")) (omega arith) (omega arith) refl (omega arith) refl
