-- ===== src/App/Version.antt =====
-- internal/app/version.go: the version of the program.
use jobsd.Common.{[], ◌∷◌, String}
use jobsd.Common.Text.{Runes, runes}
use jobsd.Action.{Action}
use jobsd.Output.{Format, Terminal, parse_format, print_fields}
use jobsd.App.Print.{field, print_as}

-- BuildInfo of root.go, and versionOutput, which has the same fields
pub record BuildInfo : Type 0 where
  pub version : String
  pub commit : String
  pub build_date : String

unfoldable pub version_command :
    (Runes → Runes) → String → (BuildInfo → Runes) → BuildInfo → Action Terminal Unit
unfolding parse_format print_fields
version_command align flag encode = print_as flag encode λ value. print_fields align Format.table (
    field "VERSION" (runes value.version)
    ∷ field "COMMIT" (runes value.commit)
    ∷ field "BUILD_DATE" (runes value.build_date)
    ∷ [])
