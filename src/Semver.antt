-- ===== src/Semver.antt =====
-- The semver library (github.com/Masterminds/semver/v3), as the operator uses it.
--
-- The library is not part of the repository: it is a parameter. `new_version` returns the version or
-- the message of the error, `new_constraint` likewise, and `check` takes the pointer that it is
-- given, `none` for nil; it returns `none` where the call panics.
use conduit_operator.Prelude.{
  ℕ, ◌≡◌, String, Bool, true, ◌&&◌, ◌||◌, not, Option, none, some, leb, ltb, nat_eq,
}
use conduit_operator.Prelude.Result.{Result, ok}

-- A release `major.minor.patch`, or a pre-release of it.
pub record Release : Type 0 where
  pub major : ℕ
  pub minor : ℕ
  pub patch : ℕ
  pub prerelease : Bool

-- Versions in `0.minor.patch`, `from ≤ patch`, and `patch ≤ to` where there is such a bound.
abbrev pub in_minor : ℕ → ℕ → Option ℕ → Release → Bool
in_minor minor from to v =
    not v.prerelease
    && (nat_eq v.major 0
        && (nat_eq v.minor minor
            && (leb from v.patch && (elim to [ none ↦ true | some n ↦ leb v.patch n ]))))

-- At least `0.minor.0`, and no pre-release.
abbrev pub at_least_minor : ℕ → Release → Bool
at_least_minor minor v = not v.prerelease && (ltb 0 v.major || leb minor v.minor)

pub record Semver : Type 1 where
  pub Version : Type 0
  pub Constraints : Type 0
  pub new_version : String → Result Version
  pub new_constraint : String → Result Constraints
  pub check : Constraints → Option Version → Option Bool

-- The documented meaning of the five constraints of the operator.
pub record IsDocumented (S : Semver) (release : S.Version → Release) : Type 0 where
  pub tilde_11 :
      (c : S.Constraints) × (S.new_constraint "~0.11.x" ≡ ok c)
      × ((v : S.Version) → S.check c (some v) ≡ some (in_minor 11 0 none (release v)))
  pub tilde_12 :
      (c : S.Constraints) × (S.new_constraint "~0.12.x" ≡ ok c)
      × ((v : S.Version) → S.check c (some v) ≡ some (in_minor 12 0 none (release v)))
  pub up_to_13_4 :
      (c : S.Constraints) × (S.new_constraint "<= 0.13.4, >= 0.13.0" ≡ ok c)
      × ((v : S.Version) → S.check c (some v) ≡ some (in_minor 13 0 (some 4) (release v)))
  pub caret_13_5 :
      (c : S.Constraints) × (S.new_constraint "^0.13.5" ≡ ok c)
      × ((v : S.Version) → S.check c (some v) ≡ some (in_minor 13 5 none (release v)))
  pub from_11 :
      (c : S.Constraints) × (S.new_constraint ">= 0.11.0" ≡ ok c)
      × ((v : S.Version) → S.check c (some v) ≡ some (at_least_minor 11 (release v)))
