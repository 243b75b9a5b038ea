-- ===== src/Release/Package/Output.antt =====
-- cmd/release-tool/main.go: the file of a package.
use srv_deployment.Prelude.{ℕ, Option, none, some, List, [], ◌∷◌, Text, codes}
use srv_deployment.Dict
use srv_deployment.Exec.{Exec, ◌>>=◌, ◌>>◌, pure, raise, lift, modify, check}
use srv_deployment.Files.{Files, file}
use srv_deployment.Platform.{Platform}
use srv_deployment.Release.Manifest.{Formats}
use srv_deployment.Release.Package.{
  Package, Tool, Flags, Outcome, Failure, make_directory, create_output, write_output, close_output,
  sync_output, packaged,
}
use srv_deployment.Release.Verify.{Crypto}

-- The entries, with the modes 0444 and 0555.
abbrev entries : Package → List (Text × ℕ × Text)
entries k =
    (codes "manifest.json", 292, k.manifest)
    ∷ (codes "manifest.sig", 292, k.signature)
    ∷ (codes "control-center", 365, k.artifact)
    ∷ []

abbrev or_raise : {A : Type 0} → Option A → Exec Failure Files Unit → Failure → Exec Failure Files A
or_raise none failed e = failed >> raise e
or_raise (some a) failed e = pure a

module _ (t : Tool) (o : Outcome) (now : ℕ) where
  -- What a return before the archive is closed leaves in the file.
  abbrev leave : (path : Text) → Exec Failure Files Unit
  leave path = modify (λ fs. Dict.put fs path (file o.left))

  -- The loop over the entries.
  unfoldable pub write_entries :
      (path : Text) → List (Text × ℕ × Text) → (written : Text) → Exec Failure Files Text
  write_entries path [] written = pure written
  write_entries path ((name, mode, content) ∷ es) written = do
    next ← or_raise (t.add written name mode now content) (leave path) write_output
    write_entries path es next

  unfoldable pub write_package : (path : Text) → Package → Exec Failure Files Unit
  write_package path k = do
    check o.made make_directory
    check o.created create_output
    written ← write_entries path (entries k) []
    closed ← or_raise (t.close written) (leave path) close_output
    modify (λ fs. Dict.put fs path (file closed))
    check o.synced sync_output

  -- The command `package`, with the path that it prints.
  unfoldable pub package_release : Platform → Formats → Crypto → Flags → Exec Failure Files Text
  package_release p f g flags fs =
      (do k ← lift (packaged p f g t flags fs); write_package flags.output k; pure flags.output) fs
