-- ===== src/Release/Package/Command.antt =====
-- cmd/release-tool/main.go: `main`, with `must` and `fatal`.
use srv_deployment.Prelude.{
  ℕ, Option, none, some, List, [], ◌∷◌, ◌!=◌, Text, codes, if◌then◌else◌, Result, ok, err, text_eq,
  nat_eq, int_eq,
}
use srv_deployment.Files.{Files}
use srv_deployment.Platform.{Platform}
use srv_deployment.Release.Manifest.{Formats}
use srv_deployment.Release.Package.{Tool, Flags, Outcome, Failure, usage}
use srv_deployment.Release.Package.Output.{package_release}
use srv_deployment.Release.Verify.{Crypto}

-- The status of the process, and what it prints to its output.
pub record Exit : Type 0 where
  pub status : ℕ
  pub output : Option Text

-- `os.Exit` with a message on the standard error, as in `fatal`.
abbrev exit : ℕ → Exit
exit n = record { status = n; output = none }

-- `must`, and the test of the flags.
abbrev pub exit_of : Result Failure Text → Exit
exit_of (ok path) = record { status = 0; output = some path }
exit_of (err usage) = exit 2
exit_of (err _) = exit 1

module _ (t : Tool) (o : Outcome) (now : ℕ) (p : Platform) (f : Formats) (g : Crypto)
    (parse : List Text → Result ℕ Flags) where
  -- `parse` is the flag set: an error is the status with which `flag.ExitOnError` ends the process.
  abbrev package_with : Result ℕ Flags → Files → Exit × Files
  package_with (err n) fs = (exit n, fs)
  package_with (ok flags) fs =
      let (result, left) = package_release t o now p f g flags fs in (exit_of result, left)

  -- `main`, on the arguments after the program's name.
  unfoldable pub main : List Text → Files → Exit × Files
  main [] fs = (exit 2, fs)
  main (command ∷ args) fs =
      if command != codes "package" then (exit 2, fs) else package_with (parse args) fs
