-- ===== src/Tests/Bridge.antt =====
-- internal/bridge/bridge.go
use agentic_stats.Prelude.{
  ℕ, ◌≤◌, ◌<◌, ◌^◌, ◌≡◌, refl, sym, ap, subst, ◌∙◌, Bool, true, false, ◌⊎◌, inl, inr, none, some,
  Option, List, [], ◌∷◌, map, arith, codes, All, In, select, is_prefix, Bool-cases, if◌then◌else◌,
  length,
}
use agentic_stats.Source.{Bytes}
use agentic_stats.Version.{digits_value, is_digit}
use agentic_stats.Store.Record.{Record, to_row, of_row, nullable, nullable_int}
use agentic_stats.Store.Table.{
  has_key, same_line, same_uuid, same_hash, conflicts, held, max_seq, IsDense, find_row,
  exec_insert,
}
use agentic_stats.Store.Append.{
  Db, AppendResult, malformed, append_remote, remote_loop, remote_step, in_tx,
}
use agentic_stats.Store.Query.{vector, seq_at, group_max, has_origin, since, backlog}
use agentic_stats.Store.Order.{order_by_seq, insert_by_seq, last_seq}
use agentic_stats.Bridge.Key.{
  pos, format_key, parse_key, cut_last, cut_first, before_suffix, parse_int, parse_magnitude,
  in_range, key_of_path, key_of_name, key_of_span, key_of_range, bytes_eq, padded, digits, zeros,
}
use agentic_stats.Bridge.Key.Reading.{bytes_eq_refl, parse_key-format_key}
use agentic_stats.Bridge.Folder.{
  Backend, Codec, Fetched, get_bundle, read_sealed, opened, decoded_records, claimed, applied,
  nothing_fetched, fetch, publish, publish_missing, publish_loop, list_ranges, ranges_of,
  range_from, covered, put_bundle, put_marshalled, put_sealed, stored_bundle, then_publish,
}
use agentic_stats.Bridge.Round.{prefix_of, Lists}
use agentic_stats.Bridge.Publish.{IsPublished, publish-IsPublished}
use agentic_stats.Bridge.Fetch.{Grown, IsFetched, IsWellFormed, fetch-IsFetched}
use agentic_stats.Bridge.Missed.{fetch_never_returns}
use agentic_stats.Tests.Data.{sent, empty_db}
use agentic_stats.Tests.Sync.{rows_of_b, node_b, node_b-IsUnique}

parse_key-format_key_example :
    parse_key (format_key (codes "a/b") 1 5000)
    ≡ some (record { origin = codes "a/b"; first = pos 1; last = pos 5000 })
parse_key-format_key_example = parse_key-format_key (codes "a/b") 1 5000 (omega arith) (omega arith)

-- The text of a key.
key_text : format_key (codes "b") 1 12345678901234 ≡ codes "b/000000000001-12345678901234.bundle"
unfolding format_key padded digits zeros
key_text = refl

abbrev Objects : Type 0
Objects = List (Bytes × Bytes)

abbrev find : Bytes → Objects → Option Bytes
find key [] = none
find key (o ∷ s) = if bytes_eq (o.0) key then some (o.1) else find key s

-- A folder that keeps every object.
abbrev folder : Backend Objects
folder = record {
  put = λ key body s. some ((key, body) ∷ s);
  get = find;
  list = λ prefix s. some (select (is_prefix prefix) (map (λ o. o.0) s));
}

abbrev listed : Bytes → Objects → List Bytes
listed prefix s = select (is_prefix prefix) (map (λ o. o.0) s)

some_eq : {A : Type 0} (a b : A) → some a ≡ some b → a ≡ b
some_eq {A} a b e = ap (λ (o : Option A). elim o [ none ↦ a | some x ↦ x ]) e

folder-Lists : Lists folder
folder-Lists prefix key body s s' keys p l =
    subst
      (λ t.
        (keys' : List Bytes) × (folder.list prefix t ≡ some keys')
        × ((k : Bytes) → In k keys → In k keys')
        × ((is_prefix prefix key ≡ false) ⊎ In key keys'))
      (some_eq ((key, body) ∷ s) s' p)
      (subst
        (λ ks.
          (keys' : List Bytes) × (folder.list prefix ((key, body) ∷ s) ≡ some keys')
          × ((k : Bytes) → In k ks → In k keys')
          × ((is_prefix prefix key ≡ false) ⊎ In key keys'))
        (some_eq (listed prefix s) keys l)
        (
          listed prefix ((key, body) ∷ s),
          refl,
          later (is_prefix prefix key),
          here (Bool-cases (is_prefix prefix key)),
        ))
  where
    later :
        (b : Bool) (k : Bytes)
        → In k (listed prefix s)
        → In k (if b then key ∷ listed prefix s else listed prefix s)
    later true k i = inr i
    later false k i = i

    here :
        (is_prefix prefix key ≡ true) ⊎ (is_prefix prefix key ≡ false)
        → (is_prefix prefix key ≡ false) ⊎ In key (listed prefix ((key, body) ∷ s))
    here (inl e) = inr (rw e (inl refl))
    here (inr e) = inl e

node_b-IsDense : IsDense rows_of_b "b"
unfolding held has_key max_seq to_row
node_b-IsDense k = (λ h. ground arith, λ h. ground (arith, h.0, h.1))

-- A bundle's records are those of a peer, in a body that is not empty.
abbrev codec : Codec
codec = record {
  marshal = λ b. some (length b.records ∷ []);
  unmarshal = λ body. elim body [
    | [] ↦ none
    | c ∷ rest ↦
        some (record { origin_id = "b"; first = 2; last = 2; records = sent "b" 2 "v2" "g2" ∷ [] })
  ];
  seal = λ i body. some (i ∷ body);
  unseal = λ sealed. some sealed;
}

published :
    publish folder codec node_b [] ≡ ((format_key (codes "b") 1 2, 1 ∷ 2 ∷ []) ∷ [], 2, none)
unfolding publish publish_missing publish_loop list_ranges ranges_of range_from covered put_bundle
    put_marshalled put_sealed stored_bundle then_publish vector seq_at group_max has_origin max_seq
    since backlog order_by_seq insert_by_seq last_seq to_row of_row nullable nullable_int
published = refl

top : max_seq rows_of_b "b" < 2 ^ 63
unfolding max_seq to_row
top = omega arith

publish-IsPublished_example :
    let s' : Objects = (format_key (codes "b") 1 2, 1 ∷ 2 ∷ []) ∷ [] in
    (keys' : List Bytes) × (folder.list (prefix_of "b") s' ≡ some keys')
    × ((k : ℕ) → 1 ≤ k → k ≤ max_seq rows_of_b "b" → IsPublished keys' "b" k)
    × (publish folder codec node_b s' ≡ (s', 0, none))
publish-IsPublished_example =
    publish-IsPublished folder codec node_b [] ((format_key (codes "b") 1 2, 1 ∷ 2 ∷ []) ∷ []) 2 []
      folder-Lists node_b-IsUnique node_b-IsDense top refl published

abbrev first_key : Bytes
first_key = codes "b/000000000001-000000000001.bundle"

abbrev second_key : Bytes
second_key = codes "b/000000000002-000000000002.bundle"

-- The first object is still being copied, and is whole later.
abbrev partial : Objects
partial = (first_key, []) ∷ (second_key, 1 ∷ []) ∷ []

abbrev whole : Objects
whole = (first_key, 1 ∷ []) ∷ (second_key, 1 ∷ []) ∷ []

read_first : parse_key first_key ≡ some (record { origin = codes "b"; first = pos 1; last = pos 1 })
unfolding parse_key key_of_path key_of_name key_of_span key_of_range cut_last cut_first
    before_suffix parse_int parse_magnitude in_range digits_value is_digit
read_first = refl

read_second :
    parse_key second_key ≡ some (record { origin = codes "b"; first = pos 2; last = pos 2 })
unfolding parse_key key_of_path key_of_name key_of_span key_of_range cut_last cut_first
    before_suffix parse_int parse_magnitude in_range digits_value is_digit
read_second = refl

abbrev node_a : Db
node_a = empty_db "a"

abbrev second_record : List Record
second_record = sent "b" 2 "v2" "g2" ∷ []

abbrev after_second : Db
after_second = record node_a { rows = to_row (sent "b" 2 "v2" "g2") "t1" ∷ [] }

abbrev one_stored : AppendResult
one_stored = record { stored = 1; duplicates = 0; forked = 0; last_seq = 2 }

second_stored : append_remote node_a "t1" second_record ≡ (after_second, one_stored, none)
unfolding append_remote remote_loop remote_step malformed find_row exec_insert in_tx has_key
    conflicts same_line same_uuid same_hash to_row nullable nullable_int
second_stored = refl

no_claim : claimed (vector node_a) (codes "b") < 2
unfolding claimed vector group_max has_origin
no_claim = omega arith

claim : claimed (vector after_second) (codes "b") ≡ 2
unfolding claimed vector group_max has_origin max_seq to_row
claim = refl

partial_first : get_bundle folder codec partial first_key ≡ none
unfolding get_bundle read_sealed opened decoded_records
partial_first = refl

partial_second : get_bundle folder codec partial second_key ≡ some second_record
unfolding get_bundle read_sealed opened decoded_records
partial_second = refl

fetch_never_returns_example :
    (fetch folder codec "t1" node_a partial
      ≡ applied (nothing_fetched folder node_a) 1 (after_second, one_stored, none))
    × (fetch folder codec "t2" after_second whole ≡ (nothing_fetched folder after_second, none))
fetch_never_returns_example =
    fetch_never_returns folder codec "t1" "t2" node_a after_second partial whole first_key
      second_key (codes "b") 1 1 2 2 second_record one_stored refl refl read_first read_second
      partial_first partial_second refl no_claim second_stored (omega (arith, claim))
      (omega (arith, claim))

second-IsWellFormed : (key : Bytes) → IsWellFormed folder codec ((key, 1 ∷ []) ∷ []) key
unfolding get_bundle read_sealed opened decoded_records malformed
second-IsWellFormed key recs e =
    subst (All (λ r. malformed r ≡ false))
      (some_eq second_record recs (sym (read (bytes_eq_refl key)) ∙ e)) (refl, tt)
  where
    read :
        bytes_eq key key ≡ true
        → get_bundle folder codec ((key, 1 ∷ []) ∷ []) key ≡ some second_record
    read h = rw h refl

fetch-IsFetched_example :
    (g : Fetched) × (fetch folder codec "t1" node_a ((second_key, 1 ∷ []) ∷ []) ≡ (g, none))
    × Grown (nothing_fetched folder node_a) g
    × All
        (IsFetched folder codec ((second_key, 1 ∷ []) ∷ []) "a" (vector node_a) g.db)
        (second_key ∷ [])
fetch-IsFetched_example =
    fetch-IsFetched folder codec "t1" node_a ((second_key, 1 ∷ []) ∷ []) (second_key ∷ []) tt refl
      (second-IsWellFormed second_key, tt)
