-- ===== src/Tests/Pruned.antt =====
-- internal/operations: more records than the store keeps.
use srv_deployment.Prelude.{
  ℕ, zero, suc, ◌≤◌, ◌<◌, ◌≡◌, refl, none, some, [], ◌∷◌, arith, Text_discrete, codes,
}
use srv_deployment.Dict
use srv_deployment.Dict.{Dict, IsMap}
use srv_deployment.Operations.{Record, prune, delete_all, running}
use srv_deployment.Operations.Listed.{AreRecords}
use srv_deployment.Operations.Pruning.{prune-oldest}
use srv_deployment.Sort.{sort, insert}

abbrev at : ℕ → Record
at n = running (n ∷ []) (codes "kind") (codes "root") (codes "admin") [] n

-- Records 0, 1, ..., of which there are as many as the first number.
unfoldable many : (n first : ℕ) → Dict Record
many zero first = []
many (suc n) first = (first ∷ [], at first) ∷ many n (suc first)

many-absent : (n first k : ℕ) → k < first → Dict.get (many n first) (k ∷ []) ≡ none
unfolding many Dict.get Text_discrete
many-absent zero first k h = refl
many-absent (suc n) first k h = ground (arith, many-absent n (suc first) k)

many-AreRecords : (n first : ℕ) → AreRecords (many n first)
unfolding many
many-AreRecords zero first = (tt, tt)
many-AreRecords (suc n) first =
    let rest = many-AreRecords n (suc first) in
    ((many-absent n (suc first) first (omega arith), rest.0), (refl, rest.1))

oldest_held : Dict.get (many 1001 0) (0 ∷ []) ≡ some (at 0)
unfolding many Dict.get Text_discrete
oldest_held = refl

oldest_gone : Dict.get (prune (many 1001 0)) (0 ∷ []) ≡ none
unfolding many prune sort insert delete_all Dict.get Dict.remove Text_discrete
oldest_gone = refl

next_kept : Dict.get (prune (many 1001 0)) (1 ∷ []) ≡ some (at 1)
unfolding many prune sort insert delete_all Dict.get Dict.remove Text_discrete
next_kept = refl

prune-oldest_example : (Dict.get (many 1001 0) (1 ∷ []) ≡ some (at 1)) × (0 ≤ 1)
prune-oldest_example =
    prune-oldest (many 1001 0) (0 ∷ []) (1 ∷ []) (at 0) (at 1) (many-AreRecords 1001 0) oldest_held
      oldest_gone next_kept
