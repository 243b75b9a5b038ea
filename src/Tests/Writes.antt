-- ===== src/Tests/Writes.antt =====
-- `atomicWrite`
use srv_deployment.Prelude.{
  ◌≡◌, refl, ◌≢◌, ◌↔◌, true, false, ◌&&◌, none, some, [], ◌∷◌, ◌==◌, Text, Text_discrete, codes,
  if◌then◌else◌, ℕ_discrete, text_eq, nat_eq, int_eq,
}
use srv_deployment.Dict.{get}
use srv_deployment.Files.{Files, file, Outcome, all_well, atomic_write}
use srv_deployment.Files.Atomic.{atomic_write_lem}
use srv_deployment.Tests.Fixtures.{temp_file}

abbrev disk : Files
disk = (codes "state", file (codes "old")) ∷ (codes "other", file (codes "kept")) ∷ []

abbrev unsynced : Outcome
unsynced = record (temp_file (codes ".tmp")) { synced = false; removed = false }

new_name : get disk unsynced.temp ≡ none
unfolding get Text_discrete ℕ_discrete
new_name = refl

-- A `Sync` that fails leaves the target as it was, and the temporary file too when that cannot be
-- removed.
atomic_write_lem_example :
    ((atomic_write unsynced (codes "state") (codes "new") disk).0 ≡ all_well unsynced)
    × ((j : Text)
        → unsynced.temp ≢ j
        → get (atomic_write unsynced (codes "state") (codes "new") disk).1 j ≡ (
            if all_well unsynced && codes "state" == j
            then some (file (codes "new"))
            else get disk j))
    × ((get (atomic_write unsynced (codes "state") (codes "new") disk).1 unsynced.temp ≢ none)
        ↔ ((unsynced.created ≡ true) × (all_well unsynced ≡ false) × (unsynced.removed ≡ false)))
atomic_write_lem_example =
    atomic_write_lem unsynced (codes "state") (codes "new") disk new_name (λ e. cc)
