-- ===== src/Tests/Update.antt =====
-- internal/update/update.go, internal/release/release.go
use agentic_stats.Prelude.{
  ◌≡◌, ◌≢◌, ◌⊎◌, refl, subst, ltb, inr, true, false, not, some, none, Option, List, [], ◌∷◌, ◌++◌,
  select, is_empty, codes, All,
}
use agentic_stats.Version.{
  Version, newer, is_release, parse, split_triple, three_parts, split, trim_v, parse_uint31, rank,
  cmp_or, digits_value, is_digit, order_of, push, triple_of, version_of,
}
use agentic_stats.Release.{
  Text, Library, Manifest, add_digest, add_name, check, check_digest, digest_of, has_digest,
  is_plain, open_manifest, parse_manifest, read_all, read_fields, read_line, trim_star,
  version_after, whole,
}
use agentic_stats.Release.Reading.{IsGenuine, open_manifest-IsGenuine}
use agentic_stats.Update.{
  Updater, Files, is_installed, pass, pass_target, target, target_loop, target_step, is_newer,
  pass_to, manifest, get, read_reply, artifact_names, check_file, check_result, content_of,
  download, download_reply, install_staged, of_release, published, release_url, remove, remove_all,
  stage, stage_loop, staged_contents, verify_file, write_reply,
}
use agentic_stats.Update.Target.{IsTarget, target_lem}
use agentic_stats.Update.Staged.{IsFresh}
use agentic_stats.Update.Replace.{Host, stale_path, replace}
use agentic_stats.Update.Replace.Usable.{IsFreshBeside, Ends, replace-Ends}
use agentic_stats.Bridge.Key.{bytes_eq}
use agentic_stats.Update.Safety.{IsSafe, pass-IsSafe}

-- Digests are written as they are, and every content has the same one.
abbrev digest : Text
digest = codes "0123456789abcdef0123456789abcdef"

abbrev lib : Library
lib = record {
  scan = λ s. (split 10 s, false);
  fields = λ s. select (λ f. not (is_empty f)) (split 32 s);
  trim_space = λ s. s;
  base = λ s. s;
  unhex = λ s. some s;
  sha256 = λ s. digest;
  verify = λ body signature. true;
}

abbrev body : Text
body = codes "# agentic-stats v1.2.0" ++ 10 ∷ (digest ++ codes "  *agentic-stats-linux-amd64")

abbrev described : Manifest
described = record {
  version = codes "v1.2.0";
  digests = (codes "agentic-stats-linux-amd64", digest) ∷ [];
}

body_opens : open_manifest lib body [] ≡ inr described
unfolding open_manifest parse_manifest whole read_all read_line read_fields add_digest add_name
    trim_star version_after is_plain has_digest split
body_opens = refl

open_manifest-IsGenuine_example :
    (lib.verify body [] ≡ true)
    × ((lib.scan body).1 ≡ false)
    × (is_empty described.digests ≡ false)
    × IsGenuine lib (lib.scan body).0 described
open_manifest-IsGenuine_example = open_manifest-IsGenuine lib body [] described body_opens

abbrev running : Version
running = parse (λ s. s) (codes "v1.1.0")

abbrev texts : List Text
texts = codes "dev" ∷ codes "v1.2.0" ∷ codes "1.0.0" ∷ []

target_lem_example :
    (is_release running ≡ false) × (target (λ s. s) running texts ≡ none)
    ⊎ (is_release running ≡ true)
      × (target (λ s. s) running texts ≡ none)
      × All (λ r. rank (parse (λ s. s) r) running ≢ newer) texts
    ⊎ (is_release running ≡ true)
      × ((best : Text) × (target (λ s. s) running texts ≡ some best)
          × IsTarget (λ s. s) running texts best)
target_lem_example = target_lem (λ s. s) running texts refl

abbrev updater : Updater
updater = record {
  lib = lib;
  current = running;
  base_url = codes "https://example.org";
  goos = codes "linux";
  goarch = codes "amd64";
  fetch = λ url. some (record { content = body; broken = false });
  create_temp = λ files. elim files [ [] ↦ some (codes "/tmp/1") | ◌∷◌ f fs ↦ none ];
  installed = λ given. true;
}

updater-IsFresh : IsFresh updater
unfolding content_of
updater-IsFresh [] path h = refl
updater-IsFresh (f ∷ files) path h = absurd (clash (updater.create_temp (f ∷ files)) path refl h)
  where
    clash : (o : Option Text) (p : Text) → o ≡ none → o ≡ some p → ⊥
    clash o p a b = cc

pass-IsSafe_example :
    ((pass updater (some texts) []).files ≡ [])
    × IsSafe updater (some texts) (pass updater (some texts) [])
pass-IsSafe_example = pass-IsSafe updater (some texts) [] refl updater-IsFresh

pass_installs : (pass updater (some texts) []).outcome ≡ is_installed
unfolding pass pass_target target target_loop target_step is_newer pass_to manifest get read_reply
    artifact_names check_file check_result content_of download download_reply install_staged
    of_release published release_url remove remove_all stage stage_loop staged_contents verify_file
    write_reply is_release parse split_triple three_parts split trim_v parse_uint31 rank cmp_or
    digits_value is_digit order_of push triple_of version_of add_digest add_name check check_digest
    digest_of has_digest is_plain open_manifest parse_manifest read_all read_fields read_line
    trim_star version_after whole
pass_installs = refl

-- A host on which the calls after the seventh fail, the renames among them.
abbrev failing_host : Host
failing_host = record {
  fails = λ i. ltb 6 i;
  temp = λ files beside. elim (content_of files (codes "t")) [
    | none ↦ some (codes "t")
    | some c ↦ none
  ];
  torn = λ s. [];
}

failing_host-IsFreshBeside : IsFreshBeside failing_host (codes "a")
unfolding content_of stale_path
failing_host-IsFreshBeside files tmp h = go (content_of files (codes "t")) refl h
  where
    go :
        (o : Option Text)
        → content_of files (codes "t") ≡ o
        → elim o as (λ x. Option Text) [ none ↦ some (codes "t") | some c ↦ none ] ≡ some tmp
        → (content_of files tmp ≡ none) × (bytes_eq tmp (stale_path (codes "a")) ≡ false)
    go none e h =
        let same : codes "t" ≡ tmp = cc in
        subst (λ x. (content_of files x ≡ none) × (bytes_eq x (stale_path (codes "a")) ≡ false))
          same (e, refl)
    go (some c) e h = absurd (cc)

abbrev binaries : Files
binaries = (codes "a", 1 ∷ []) ∷ (codes "b", 2 ∷ []) ∷ []

replace-Ends_example : Ends failing_host (codes "a") (1 ∷ []) (2 ∷ []) (
    replace failing_host
      (codes "a")
      (codes "b")
      (record { files = binaries; calls = 0; past = [] }))
unfolding content_of
replace-Ends_example =
    replace-Ends failing_host (codes "a") (codes "b") (1 ∷ []) (2 ∷ []) binaries
      failing_host-IsFreshBeside refl refl
