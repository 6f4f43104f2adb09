-- ===== src/YankAudit.antt =====
-- src/lib/yank-audit.ts: the dependencies in the lockfile and the result of an audit. The parser of TOML
-- is a parameter.
pub mod Audit
pub mod Coverage
pub mod Index
pub mod Laws
pub mod Resolve
pub mod Workers
mod Tests
use setup_soldr.Base.{ℕ}
use setup_soldr.Base.{Bool, true, false, ◌&&◌, ◌||◌, Option, none, some}
use setup_soldr.Base.{List, [], ◌∷◌, if◌then◌else◌, ◌==◌}
use setup_soldr.Base.{nat_eq, list_eq, option_eq}
use setup_soldr.Base.{any, Result, ok}
use setup_soldr.Base.{◌>>=◌}
use setup_soldr.Base.Text.{Text, text, starts_with}
use setup_soldr.Base.Json.{Json, Items, prop}

pub record YankAuditDependency : Type 0 where
  pub name : Text
  pub version : Text
  pub source : Text

pub record YankedDependency : Type 0 where
  pub name : Text
  pub version : Text

pub data YankAuditStatus : Type 0 where
  pending clean yanked not_checked : YankAuditStatus

-- Absent fields are none; the stamp of time is left out.
pub record YankAuditResult : Type 0 where
  pub status : YankAuditStatus
  pub dependency_count : ℕ
  pub checked_count : ℕ
  pub yanked : List YankedDependency
  pub errors : List Text
  pub join_timed_out : Bool
  pub audit_timed_out : Bool

unfoldable pub is_crates_io_source : Text → Bool
unfolding text
is_crates_io_source source =
    source == text "registry+https://github.com/rust-lang/crates.io-index"
    || source == text "sparse+https://index.crates.io/"

unfoldable pub is_registry_source : Text → Bool
unfolding starts_with text
is_registry_source source =
    starts_with source (text "registry+") || starts_with source (text "sparse+")

-- A package of the lockfile, if it comes from a registry.
abbrev pub dependency_of : Option Json → Option Json → Option Json → Option YankAuditDependency
dependency_of (some (Json.str name)) (some (Json.str version)) (some (Json.str source)) =
    if is_registry_source source
    then some (record { name = name; version = version; source = source })
    else none
dependency_of _ _ _ = none

abbrev pub same_dependency : YankAuditDependency → YankAuditDependency → Bool
same_dependency a b = a.source == b.source && (a.name == b.name && a.version == b.version)

unfoldable pub registry_dependencies : List YankAuditDependency → Items → List YankAuditDependency
unfolding is_registry_source prop text
registry_dependencies seen Items.nil = []
registry_dependencies seen (Items.cons entry packages) =
    elim (dependency_of (prop (some entry) (text "name")) (prop (some entry) (text "version"))
      (prop (some entry) (text "source"))) [
        | none ↦ registry_dependencies seen packages
        | some dependency ↦ elim (any (same_dependency dependency) seen) [
          | true ↦ registry_dependencies seen packages
          | false ↦ dependency ∷ registry_dependencies (dependency ∷ seen) packages
        ]
      ]

abbrev pub packages_of : Option Json → Items
packages_of (some (Json.arr items)) = items
packages_of value = Items.nil

-- The lockfile as TOML. Names and versions hold no zero byte, so the key of a package is its three parts.
unfoldable pub read_registry_dependencies :
    (Text → Result Json) → Text → Result (List YankAuditDependency)
unfolding registry_dependencies prop text
read_registry_dependencies parse_toml lockfile = parse_toml lockfile >>= λ parsed.
    ok (registry_dependencies [] (packages_of (prop (some parsed) (text "package"))))
