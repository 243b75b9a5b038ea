-- ===== src/Process.antt =====
-- What the program says of itself: internal/buildinfo, and the packages os and runtime.
use srv_deployment.Prelude.{ℕ, Text, codes}

-- The variables of internal/buildinfo, which the linker may set.
pub record BuildInfo : Type 0 where
  pub version : Text
  pub commit : Text
  pub built_at : Text

-- What `os` and `runtime` say of the process.
pub record Process : Type 0 where
  pub pid : ℕ
  pub go_version : Text
  pub go_os : Text
  pub go_arch : Text
  pub goroutines : ℕ

-- The values that they have in the source.
abbrev pub development : BuildInfo
development = record {
  version = codes "1.0.0-beta.1+dev";
  commit = codes "unknown";
  built_at = codes "unknown";
}
