-- ===== src/Bridge/Folder.antt =====
-- Publish, Fetch and Sync. internal/bridge/bridge.go
use agentic_stats.Prelude.{
  ℕ, zero, suc, ◌+◌, ◌-◌, Bool, true, false, not, ◌||◌, Option, none, some, List, [], ◌∷◌, ◌++◌,
  String, codes, ltb, min, ◌==◌, if◌then◌else◌, length, take, is_empty,
}
use agentic_stats.Source.{Bytes}
use agentic_stats.Store.Record.{Record}
use agentic_stats.Store.Append.{Db, AppendResult, AppendError, append_remote}
use agentic_stats.Store.Query.{VersionVector, seq_at, since, vector}
use agentic_stats.Store.Order.{last_seq}
use agentic_stats.Bridge.Key.{ℤ, pos, negsuc, at_most, format_key, Key, bytes_eq, parse_key}

abbrev pub bundle_records : ℕ
bundle_records = 5000

abbrev pub max_bundle_bytes : ℕ
max_bundle_bytes = 268435456

-- A blob store whose contents are an S; `none` is an error.
pub record Backend (S : Type 0) : Type 0 where
  pub put : Bytes → Bytes → S → Option S
  pub get : Bytes → S → Option Bytes
  pub list : Bytes → S → Option (List Bytes)

pub record Bundle : Type 0 where
  pub origin_id : String
  pub first : ℕ
  pub last : ℕ
  pub records : List Record

-- json.Marshal and json.Unmarshal of a bundle, SealPayload of the bundle from a number on, which
-- seals with a nonce of its own each time, and OpenPayload.
pub record Codec : Type 0 where
  pub marshal : Bundle → Option Bytes
  pub unmarshal : Bytes → Option Bundle
  pub seal : ℕ → Bytes → Option Bytes
  pub unseal : Bytes → Option Bytes

pub data BridgeError : Type 0 where
  list_failed encode_failed seal_failed put_failed : BridgeError
  append_failed : AppendError → BridgeError

-- The ranges of an origin that are published: the last number for each first.
abbrev pub Ranges : Type 0
Ranges = List (ℤ × ℤ)

abbrev pub same_number : ℤ → ℤ → Bool
same_number (pos a) (pos b) = a == b
same_number (negsuc a) (negsuc b) = a == b
same_number (pos a) (negsuc b) = false
same_number (negsuc a) (pos b) = false

-- `a < b`
abbrev pub below : ℤ → ℤ → Bool
below (pos a) (pos b) = ltb a b
below (pos a) (negsuc b) = false
below (negsuc a) (pos b) = true
below (negsuc a) (negsuc b) = ltb b a

unfoldable pub range_from : Ranges → ℤ → Option ℤ
range_from [] first = none
range_from (e ∷ ranges) first =
    if same_number (e.0) first then some (e.1) else range_from ranges first

unfoldable pub raised : Ranges → ℤ → ℤ → Option ℤ → Ranges
raised ranges first last none = (first, last) ∷ ranges
raised ranges first last (some old) = if below old last then (first, last) ∷ ranges else ranges

unfoldable pub add_key : Bytes → Ranges → Option Key → Ranges
add_key origin ranges none = ranges
add_key origin ranges (some k) =
    if bytes_eq k.origin origin
    then raised ranges k.first k.last (range_from ranges k.first)
    else ranges

unfoldable pub ranges_of : Bytes → List Bytes → Ranges → Ranges
ranges_of origin [] ranges = ranges
ranges_of origin (key ∷ keys) ranges = ranges_of origin keys (add_key origin ranges (parse_key key))

-- A range that is there and was not cut short.
unfoldable pub covered : ℕ → Option ℤ → Bool
covered last none = false
covered last (some end) = at_most last end

module _ {S : Type 0} (B : Backend S) where
  unfoldable pub list_ranges : Bytes → Option (List Bytes) → Option Ranges
  list_ranges origin none = none
  list_ranges origin (some keys) = some (ranges_of origin keys [])

  -- The folder, how many records were published, and the error.
  abbrev pub Published : Type 0
  Published = S × ℕ × Option BridgeError

  unfoldable pub stored_bundle : S → ℕ → Option S → Published
  stored_bundle s n none = (s, 0, some put_failed)
  stored_bundle s n (some after) = (after, n, none)

  unfoldable pub put_sealed : Bytes → S → ℕ → Option Bytes → Published
  put_sealed key s n none = (s, 0, some seal_failed)
  put_sealed key s n (some sealed) = stored_bundle s n (B.put key sealed s)

  unfoldable pub put_marshalled : Codec → ℕ → Bytes → S → ℕ → Option Bytes → Published
  put_marshalled codec first key s n none = (s, 0, some encode_failed)
  put_marshalled codec first key s n (some body) = put_sealed key s n (codec.seal first body)

  unfoldable pub put_bundle : Codec → String → ℕ → ℕ → List Record → S → Published
  put_bundle codec origin first last recs s =
      put_marshalled codec first (format_key (codes origin) first last) s (length recs)
        (codec.marshal (record { origin_id = origin; first = first; last = last; records = recs }))

  -- After one bundle, the rest if it was put.
  unfoldable pub then_publish : (S → Published) → Published → Published
  then_publish more (s, n, some e) = (s, n, some e)
  then_publish more (s, n, none) = let (s', m, e) = more s in (s', n + m, e)

  -- The loop from `first` on; it has at most as many rounds as there are numbers left, its fuel.
  unfoldable pub publish_loop : ℕ → Codec → Db → ℕ → Ranges → ℕ → S → Published
  publish_loop zero codec db have existing first s = (s, 0, none)
  publish_loop (suc fuel) codec db have existing first s =
      let last = min (first + bundle_records - 1) have in
      let recs = since db db.origin (first - 1) bundle_records in
      let more = publish_loop fuel codec db have existing (first + bundle_records) in
      elim (ltb have first) [
        | true ↦ (s, 0, none)
        | false ↦ elim (covered last (range_from existing (pos first))) [
          | true ↦ more s
          | false ↦ elim (is_empty recs) [
            | true ↦ (s, 0, none)
            | false ↦ then_publish more (put_bundle codec db.origin first (last_seq recs 0) recs s)
          ]
        ]
      ]

  unfoldable pub publish_missing : Codec → Db → ℕ → S → Option Ranges → Published
  publish_missing codec db have s none = (s, 0, some list_failed)
  publish_missing codec db have s (some existing) = publish_loop have codec db have existing 1 s

  unfoldable pub publish : Codec → Db → S → Published
  publish codec db s =
      let have = seq_at (vector db) db.origin in
      let origin = codes db.origin in
      if have == 0
      then (s, 0, none)
      else publish_missing codec db have s (list_ranges origin (B.list (origin ++ b'/' ∷ []) s))

  -- The contents of a bundle; `none` is one that cannot be read, opened or decoded.
  unfoldable pub decoded_records : Option Bundle → Option (List Record)
  decoded_records none = none
  decoded_records (some b) = some b.records

  unfoldable pub opened : Codec → Option Bytes → Option (List Record)
  opened codec none = none
  opened codec (some body) = decoded_records (codec.unmarshal body)

  unfoldable pub read_sealed : Codec → Option Bytes → Option (List Record)
  read_sealed codec none = none
  read_sealed codec (some raw) = opened codec (codec.unseal (take max_bundle_bytes raw))

  unfoldable pub get_bundle : Codec → S → Bytes → Option (List Record)
  get_bundle codec s key = read_sealed codec (B.get key s)

-- `vec[origin]` for an origin in bytes.
unfoldable pub claimed : VersionVector → Bytes → ℕ
claimed [] origin = 0
claimed (e ∷ vec) origin = if bytes_eq (codes (e.0)) origin then e.1 else claimed vec origin

-- A bundle's key that Fetch passes over: no key, this node's own, or below the watermark.
unfoldable pub skipped : Bytes → VersionVector → Option Key → Bool
skipped own vec none = true
skipped own vec (some k) = bytes_eq k.origin own || not (below (pos (claimed vec k.origin)) k.last)

-- What has been fetched: the replica, and the three counts.
pub record Fetched : Type 0 where
  pub db : Db
  pub fetched : ℕ
  pub stored : ℕ
  pub forked : ℕ

abbrev pub FetchResult : Type 0
FetchResult = Fetched × Option BridgeError

unfoldable pub applied : Fetched → ℕ → Db × AppendResult × Option AppendError → FetchResult
applied f n (db, out, some e) = (record f { db = db }, some (append_failed e))
applied f n (db, out, none) = (
  record {
    db = db;
    fetched = f.fetched + n;
    stored = f.stored + out.stored;
    forked = f.forked + out.forked;
  },
  none,
)

unfoldable pub then_fetch : (Fetched → FetchResult) → FetchResult → FetchResult
then_fetch more (f, some e) = (f, some e)
then_fetch more (f, none) = more f

-- An unreadable bundle is passed over too.
unfoldable pub apply_bundle : String → Fetched → Option (List Record) → FetchResult
apply_bundle now f none = (f, none)
apply_bundle now f (some recs) = applied f (length recs) (append_remote f.db now recs)

module _ {S : Type 0} (B : Backend S) where
  -- One object: the vector is the one read before the loop.
  unfoldable pub fetch_object : Codec → String → VersionVector → S → Bytes → Fetched → FetchResult
  fetch_object codec now vec s key f = elim (skipped (codes f.db.origin) vec (parse_key key)) [
    | true ↦ (f, none)
    | false ↦ apply_bundle now f (get_bundle B codec s key)
  ]

  unfoldable pub fetch_loop :
      Codec → String → VersionVector → S → List Bytes → Fetched → FetchResult
  fetch_loop codec now vec s [] f = (f, none)
  fetch_loop codec now vec s (key ∷ keys) f =
      then_fetch (fetch_loop codec now vec s keys) (fetch_object codec now vec s key f)

  abbrev pub nothing_fetched : Db → Fetched
  nothing_fetched db = record { db = db; fetched = 0; stored = 0; forked = 0 }

  unfoldable pub fetch_listed : Codec → String → Db → S → Option (List Bytes) → FetchResult
  fetch_listed codec now db s none = (nothing_fetched db, some list_failed)
  fetch_listed codec now db s (some keys) =
      fetch_loop codec now (vector db) s keys (nothing_fetched db)

  unfoldable pub fetch : Codec → String → Db → S → FetchResult
  fetch codec now db s = fetch_listed codec now db s (B.list [] s)

  -- Sync: publish, and fetch if that succeeded.
  unfoldable pub sync_after : Codec → String → Db → Published B → S × ℕ × FetchResult
  sync_after codec now db (s, n, some e) = (s, 0, (nothing_fetched db, some e))
  sync_after codec now db (s, n, none) = (s, n, fetch codec now db s)

  unfoldable pub sync : Codec → String → Db → S → S × ℕ × FetchResult
  sync codec now db s = sync_after codec now db (publish B codec db s)
