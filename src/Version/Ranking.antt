-- ===== src/Version/Ranking.antt =====
-- Compare is an order on releases, with everything unreleased below. internal/version/version.go
use agentic_stats.Prelude.{◌<◌, ◌≡◌, ◌⊎◌, arith}
use agentic_stats.Version.{Version, unreleased, release, unknown, same, newer, older, rank}

-- A later triple: by major, then minor, then patch.
abbrev pub IsLater : Version → Version → Type 0
IsLater v w =
    (w.major < v.major)
    ⊎ (v.major ≡ w.major) × ((w.minor < v.minor) ⊎ (v.minor ≡ w.minor) × (w.patch < v.patch))

-- Of two releases exactly one of three holds: the first has the later triple, and is newer and the
-- other older; or the other way round; or the triples are equal, and they are the same, whatever
-- their texts.
pub rank_releases :
    (v w : Version)
    → v.kind ≡ release
    → w.kind ≡ release
    → IsLater v w × (rank v w ≡ newer) × (rank w v ≡ older)
      ⊎ IsLater w v × (rank v w ≡ older) × (rank w v ≡ newer)
      ⊎ (v.major ≡ w.major)
        × (v.minor ≡ w.minor)
        × (v.patch ≡ w.patch)
        × (rank v w ≡ same)
        × (rank w v ≡ same)
unfolding rank
rank_releases v w p q = ground arith

-- Against a build that names no release: a release is newer and that build older, and two such
-- builds are not ranked, either way.
pub rank_unreleased :
    (v w : Version)
    → w.kind ≡ unreleased
    → (v.kind ≡ release) × (rank v w ≡ newer) × (rank w v ≡ older)
      ⊎ (v.kind ≡ unreleased) × (rank v w ≡ unknown) × (rank w v ≡ unknown)
unfolding rank
rank_unreleased v w q = ground arith

-- What is newer than something newer is newer still: no cycle of builds each newer than the next.
pub rank_trans : (u v w : Version) → rank u v ≡ newer → rank v w ≡ newer → rank u w ≡ newer
unfolding rank
rank_trans u v w h k = ground arith

-- Only a release can be newer than anything.
pub newer_is_release : (v w : Version) → rank v w ≡ newer → v.kind ≡ release
unfolding rank
newer_is_release v w h = ground arith
