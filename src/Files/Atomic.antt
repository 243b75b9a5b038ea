-- ===== src/Files/Atomic.antt =====
-- `atomicWrite` replaces a file whole or not at all.
use srv_deployment.Prelude.{
  ◌≡◌, ◌≢◌, ◌↔◌, true, false, ◌&&◌, none, some, arith, ◌==◌, Text, if◌then◌else◌, text_eq, nat_eq,
  int_eq,
}
use srv_deployment.Dict.{get, get-put, get-remove}
use srv_deployment.Files.{Files, file, Outcome, all_well, atomic_write, rename}

-- When the name of the temporary file is new and is not the target's: the call succeeds exactly when
-- every step does; the target then holds the new bytes, and otherwise what it held; no other path but
-- the temporary file's changes; and a temporary file is left exactly when one was created, a later step
-- failed, and its removal failed too.
pub atomic_write_lem :
    (o : Outcome) (path bytes : Text) (fs : Files)
    → get fs o.temp ≡ none
    → o.temp ≢ path
    → ((atomic_write o path bytes fs).0 ≡ all_well o)
      × ((j : Text)
          → o.temp ≢ j
          → get (atomic_write o path bytes fs).1 j
            ≡ (if all_well o && path == j then some (file bytes) else get fs j))
      × ((get (atomic_write o path bytes fs).1 o.temp ≢ none)
          ↔ ((o.created ≡ true) × (all_well o ≡ false) × (o.removed ≡ false)))
unfolding atomic_write rename
atomic_write_lem o path bytes fs new apart = (
  ground arith,
  λ j other. grind (arith, get-put, get-remove),
  (
    λ left. grind (arith, get-put, get-remove),
    λ (created, failed, stays) none_left. grind (arith, get-put, get-remove),
  ),
)

-- After a success no temporary file is left either.
pub get-atomic_write_done :
    (o : Outcome) (path bytes : Text) (fs : Files)
    → get fs o.temp ≡ none
    → o.temp ≢ path
    → (atomic_write o path bytes fs).0 ≡ true
    → (j : Text)
    → get (atomic_write o path bytes fs).1 j ≡ (if path == j then some (file bytes) else get fs j)
unfolding atomic_write rename
get-atomic_write_done o path bytes fs new apart done_ j = grind (arith, get-put, get-remove)
