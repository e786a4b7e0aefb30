-- ===== src/Tests/Mesh.antt =====
-- internal/mesh/mesh.go, internal/mesh/sync/frame.go
use agentic_stats.Prelude.{
  ℕ, ◌+◌, ◌*◌, ◌≡◌, ◌≢◌, ◌↔◌, ◌⊎◌, refl, ap, true, false, not, none, some, Option, List, [], ◌∷◌,
  String, str_eq, arith, In, select,
}
use agentic_stats.Mesh.Dial.{
  Attempt, Target, Event, swept, seen, dial_and_sync, sweep, sweep_addrs, penalize, in_backoff,
  expires_after, until_of, clear_backoff, wait_after, discovered, first_sighting, nudge, run, step,
  new_node, noted,
}
use agentic_stats.Mesh.Dial.Backoff.{IsFlat, run-IsFlat}
use agentic_stats.Mesh.Health.{Peer, host_of}
use agentic_stats.Mesh.Known.{
  is_placeholder, known_peers, Introduced, known_peers_iff, without_redundant_placeholders,
  is_redundant, answered, hosts_overlap,
}
use agentic_stats.Store.Peers.{Rows, first_heard}
use agentic_stats.Mesh.Outcome.{Exchanged, outcome_of, encoded_vector, exchange}
use agentic_stats.Mesh.Outcome.After.{IsRecorded, exchange-Recorded}
use agentic_stats.Source.{Bytes}
use agentic_stats.Cursor.{put_uint}
use agentic_stats.Sync.Message.{Message, records, done, vector, unknown}
use agentic_stats.Sync.Frame.{
  Json, end_of_file, read_frames, write_frames, wrote, write_frame, write_marshalled, write_body,
  then_write,
}
use agentic_stats.Sync.Frame.Stream.{IsFaithful, read_frames-write_frames}

-- A laptop that is asleep: it is tried at every sweep, and each sweep comes when its wait is over.
abbrev asleep : ℕ → Attempt
asleep i = record {
  checked = i * 70000000000;
  connects = false;
  asked = i * 70000000000 + 5;
  set = i * 70000000000 + 7;
  jitter = 1000;
}

abbrev laptop : Target
laptop = record { id = "laptop"; addrs = "10.0.0.2:9000" ∷ [] }

abbrev three_sweeps : List Event
three_sweeps =
    seen "laptop" true ∷ swept (laptop ∷ []) ∷ swept (laptop ∷ []) ∷ swept (laptop ∷ []) ∷ []

run-IsFlat_example : IsFlat asleep (run asleep "desk" three_sweeps new_node).dialling
run-IsFlat_example = run-IsFlat asleep "desk" three_sweeps (λ i. omega arith)

-- After three failures in a row the wait is still that of the first.
flat_wait :
    (run asleep "desk" three_sweeps new_node).dialling.backoff
    ≡ ("10.0.0.2:9000", 200000001007) ∷ []
unfolding run step sweep sweep_addrs dial_and_sync penalize in_backoff expires_after until_of
    clear_backoff wait_after discovered first_sighting nudge noted
flat_wait = refl

abbrev peer : String → String → Peer
peer id addr = record {
  id = id;
  hostname = "";
  version = "";
  addrs = addr ∷ [];
  is_static = true;
  last_seen = "";
  last_converged = "";
  last_error = "";
  last_vector = "";
}

-- A configured address and the machine that answered from it.
abbrev on_record : List Peer
on_record =
    peer "static:10.0.0.2" "10.0.0.2" ∷ peer "laptop" "10.0.0.2" ∷ peer "desk" "10.0.0.1" ∷ []

known_peers_iff_example :
    let others = select (λ q. not (str_eq q.id "desk")) on_record in
    (out : List Peer) × (known_peers (λ a. none) "desk" (some on_record) ≡ some out)
    × (In (peer "laptop" "10.0.0.2") out ↔ (
        In (peer "laptop" "10.0.0.2") on_record
        × ((peer "laptop" "10.0.0.2").id ≢ "desk")
        × ((is_placeholder (peer "laptop" "10.0.0.2") ≡ false)
            ⊎ (¬ Introduced (λ a. none) others (peer "laptop" "10.0.0.2")))))
known_peers_iff_example = known_peers_iff (λ a. none) "desk" on_record (peer "laptop" "10.0.0.2")

answered_placeholder :
    known_peers (λ a. none) "desk" (some on_record) ≡ some (peer "laptop" "10.0.0.2" ∷ [])
unfolding known_peers without_redundant_placeholders is_redundant is_placeholder answered
    hosts_overlap host_of
answered_placeholder = refl

abbrev exchanged : Exchanged
exchanged = record {
  peer_vector = ("laptop", 7) ∷ [];
  peer_host = "thinkpad";
  peer_version = "";
  error = none;
}

abbrev heard : Rows
heard = record (first_heard "laptop" "t0") { last_error = some "refused" } ∷ []

exchange-Recorded_example :
    IsRecorded
      (outcome_of (encoded_vector (λ v. some "{}") (exchanged.peer_vector)) none)
      "t1"
      "laptop"
      "10.0.0.2"
      exchanged
      heard
      (exchange (λ v. some "{}") (λ i. "t1") "desk" "laptop" "10.0.0.2" exchanged heard)
exchange-Recorded_example =
    exchange-Recorded (λ v. some "{}") (λ i. "t1") "desk" "laptop" "10.0.0.2" exchanged heard refl
      refl refl

abbrev marshal : Message → Option Bytes
marshal done = some (100 ∷ [])
marshal (records []) = some (114 ∷ 115 ∷ [])
marshal (records (r ∷ rs)) = none
marshal (vector a) = none
marshal (unknown s) = none

abbrev unmarshal : Bytes → Option Message
unmarshal [] = none
unmarshal (b ∷ []) = some done
unmarshal (b ∷ c ∷ bs) = some (records [])

abbrev json : Json
json = record { marshal = marshal; unmarshal = unmarshal }

some_of : {x y : Bytes} → ◌≡◌ {A = Option Bytes} (some x) (some y) → x ≡ y
some_of h = ap (λ (o : Option Bytes). elim o [ none ↦ [] | some b ↦ b ]) h

json-IsFaithful : IsFaithful json
json-IsFaithful done b h = rw (← some_of h) refl
json-IsFaithful (records []) b h = rw (← some_of h) refl
json-IsFaithful (records (r ∷ rs)) b h = cc
json-IsFaithful (vector a) b h = cc
json-IsFaithful (unknown s) b h = cc

abbrev two_frames : Bytes
two_frames = 0 ∷ 0 ∷ 0 ∷ 2 ∷ 114 ∷ 115 ∷ 0 ∷ 0 ∷ 0 ∷ 1 ∷ 100 ∷ []

two_written : write_frames json (records [] ∷ done ∷ []) ≡ wrote two_frames
unfolding write_frames write_frame write_marshalled write_body then_write put_uint
two_written = refl

read_frames-write_frames_example :
    read_frames 3 json two_frames ≡ (records [] ∷ done ∷ [], some end_of_file)
read_frames-write_frames_example =
    read_frames-write_frames json (records [] ∷ done ∷ []) two_frames json-IsFaithful two_written
