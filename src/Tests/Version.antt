-- ===== src/Tests/Version.antt =====
-- internal/version
use agentic_stats.Prelude.{ℕ, ◌≡◌, refl, List, codes, ◌⊎◌}
use agentic_stats.Version.{
  Version, unreleased, release, trim_v, parse, parse_uint31, split, split_triple, three_parts,
}
use agentic_stats.Version.Reading.{parse_total, ReadFrom}

abbrev as_is : List ℕ → List ℕ
as_is s = s

abbrev read : List ℕ → Version
read = parse as_is

git_describe : (read (codes "v0.2.0-5-gabc1234")).kind ≡ unreleased
unfolding parse parse_uint31 split split_triple three_parts trim_v
git_describe = refl

signed : (read (codes "1.-0.0")).kind ≡ unreleased
unfolding parse parse_uint31 split split_triple three_parts trim_v
signed = refl

abbrev v1_2_3 : Version
v1_2_3 = record { raw = codes "v1.2.3"; kind = release; major = 1; minor = 2; patch = 3 }

abbrev v1_10_0 : Version
v1_10_0 = record { raw = codes "1.10.0"; kind = release; major = 1; minor = 10; patch = 0 }

abbrev v2_0_0 : Version
v2_0_0 = record { raw = codes "2.0.0"; kind = release; major = 2; minor = 0; patch = 0 }

abbrev dev : Version
dev = record { raw = codes "dev"; kind = unreleased; major = 0; minor = 0; patch = 0 }

parse_total_example :
    ((read (codes "v0.2.0-rc1")).raw ≡ codes "v0.2.0-rc1")
    × (((read (codes "v0.2.0-rc1")).kind ≡ unreleased)
        ⊎ ((read (codes "v0.2.0-rc1")).kind ≡ release)
          × ReadFrom (codes "v0.2.0-rc1") (read (codes "v0.2.0-rc1")))
parse_total_example = parse_total as_is (codes "v0.2.0-rc1")
