-- ===== src/Tests/Store.antt =====
-- internal/store
use agentic_stats.Prelude.{
  ◌+◌, ◌≡◌, refl, true, ◌⊎◌, inr, none, some, List, [], ◌∷◌, ◌++◌, arith, String, eq_iff, All,
  length,
}
use agentic_stats.Store.Record.{Record, Row, to_row, nullable}
use agentic_stats.Store.Table.{
  has_key, same_line, same_uuid, same_hash, conflicts, exec_insert, held, find_row, max_seq,
  IsDense,
}
use agentic_stats.Store.Table.Unique.{IsUnique}
use agentic_stats.Store.Append.{
  Db, Evidence, nothing_done, append_local, append_remote, local_loop, local_step, next_seq, in_tx,
  remote_loop, remote_step, malformed, missing_origin_or_sequence,
}
use agentic_stats.Store.Append.Local.{append_local-IsDense}
use agentic_stats.Store.Append.Resend.{
  IsArchived, append_local_again, append_local_stores_twice, next_row, Adds,
}
use agentic_stats.Store.Append.Remote.{append_remote_accounts, append_remote_rolls_back, is_kept}
use agentic_stats.Store.Query.{seq_at, has_origin, vector}
use agentic_stats.Store.Query.Vector.{vector-max_seq}
use agentic_stats.Tests.Data.{line, sent, empty_db}

pub empty-IsDense : (origin : String) → IsDense [] origin
unfolding held max_seq
empty-IsDense origin k = (λ h. cc, λ h. absurd (omega arith))

abbrev two_lines : List Record
two_lines = line "u1" "h1" 0 ∷ line "u2" "h2" 40 ∷ []

abbrev after_two : Db
after_two = (append_local (empty_db "a") "t0" two_lines).0

after_two-IsDense : IsDense after_two.rows "a"
after_two-IsDense = (append_local-IsDense (empty_db "a") "t0" two_lines (empty-IsDense "a")).0

after_two_max : max_seq after_two.rows "a" ≡ 2
unfolding append_local local_loop local_step in_tx next_seq exec_insert max_seq conflicts to_row
    nullable has_key same_line same_uuid same_hash
after_two_max = refl

append_local-IsDense_example :
    let (db', out, e) = append_local after_two "t1" (line "u2" "h2" 40 ∷ line "u3" "h3" 80 ∷ []) in
    IsDense db'.rows "a"
    × (e ≡ none)
    × (out.stored + out.duplicates ≡ 2)
    × (max_seq db'.rows "a" ≡ max_seq after_two.rows "a" + out.stored)
    × ((out.stored ≡ 0) ⊎ (out.last_seq ≡ max_seq db'.rows "a"))
    × ((ws : List Row) × (db'.rows ≡ after_two.rows ++ ws) × (length ws ≡ out.stored))
unfolding append_local in_tx
append_local-IsDense_example =
    append_local-IsDense after_two "t1" (line "u2" "h2" 40 ∷ line "u3" "h3" 80 ∷ [])
      after_two-IsDense

append_local_again_example :
    let db' = (append_local after_two "t1" (line "u3" "h3" 80 ∷ [])).0 in
    All (IsArchived db'.rows after_two.origin) (line "u3" "h3" 80 ∷ [])
    × (append_local db' "t2" (line "u3" "h3" 80 ∷ [])
        ≡ (db', record nothing_done { duplicates = 1 }, none))
unfolding append_local in_tx
append_local_again_example =
    append_local_again after_two "t1" "t2" (line "u3" "h3" 80 ∷ []) after_two-IsDense
      (inr (ground (arith, eq_iff "s1" "")), tt)

-- A line with a uuid whose session is not named.
abbrev orphan : Record
orphan = record (line "u9" "h9" 0) { session_id = "" }

append_local_stores_twice_example :
    let once = append_local (empty_db "a") "t0" (orphan ∷ []) in
    let twice = append_local once.0 "t1" (orphan ∷ []) in
    Adds (empty_db "a") (next_row (empty_db "a") "t0" orphan) once
    × Adds once.0 (next_row once.0 "t1" orphan) twice
    × ((next_row once.0 "t1" orphan).seq ≡ (next_row (empty_db "a") "t0" orphan).seq + 1)
append_local_stores_twice_example =
    append_local_stores_twice (empty_db "a") "t0" "t1" orphan (ground (arith, eq_iff "u9" "")) refl

-- A peer's records: one that is new, one that is held, and one that proves a fork.
abbrev from_peer : List Record
from_peer = sent "b" 1 "v1" "g1" ∷ sent "b" 1 "v1" "g1" ∷ sent "b" 1 "w1" "other" ∷ []

append_remote_accounts_example :
    let (db', out, e) = append_remote (empty_db "a") "t0" from_peer in
    (e ≡ none)
    × (out.stored + out.duplicates + out.forked ≡ 3)
    × ((ws : List Row) × (db'.rows ≡ [] ++ ws) × (length ws ≡ out.stored))
    × ((es : List Evidence) × (db'.quarantine ≡ [] ++ es) × (length es ≡ out.forked))
    × IsUnique db'.rows
    × All (λ r. is_kept db'.rows db'.quarantine r ≡ true) from_peer
unfolding malformed
append_remote_accounts_example =
    append_remote_accounts (empty_db "a") "t0" from_peer tt (refl, (refl, (refl, tt)))

fork_counts :
    (append_remote (empty_db "a") "t0" from_peer).1
    ≡ record { stored = 1; duplicates = 1; forked = 1; last_seq = 1 }
unfolding append_remote remote_loop remote_step malformed in_tx find_row exec_insert conflicts
    to_row nullable has_key same_line same_uuid same_hash
fork_counts = refl

append_remote_rolls_back_example :
    ((append_remote after_two "t1" (sent "b" 1 "v1" "g1" ∷ sent "b" 0 "v2" "g2" ∷ [])).0
      ≡ after_two)
    × ((append_remote after_two "t1" (sent "b" 1 "v1" "g1" ∷ sent "b" 0 "v2" "g2" ∷ [])).2
        ≡ some missing_origin_or_sequence)
unfolding malformed
append_remote_rolls_back_example =
    append_remote_rolls_back after_two "t1" (sent "b" 1 "v1" "g1" ∷ sent "b" 0 "v2" "g2" ∷ []) refl

vector-max_seq_example :
    (seq_at (vector after_two) "a" ≡ max_seq after_two.rows "a")
    × (has_origin (vector after_two) after_two.origin ≡ true)
vector-max_seq_example = vector-max_seq after_two "a"
