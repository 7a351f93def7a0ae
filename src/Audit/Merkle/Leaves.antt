-- ===== src/Audit/Merkle/Leaves.antt =====
-- The root of a history from the hashes of its events.
use agentledger_mvp_v.Base.{◌≡◌, List, [], ◌∷◌, arith}
use agentledger_mvp_v.Base.Json.{Fields}
use agentledger_mvp_v.Base.Result.{ok}
use agentledger_mvp_v.Audit.Merkle.{
  Bytes, Primitives, hash_leaves, root_on, merkle_root, merkle_root_from_hashes,
}

pub merkle_root-leaves :
    (c : Primitives) (envs : List Fields) (hs : List Bytes) (root : Bytes)
    → hash_leaves c envs ≡ ok hs
    → merkle_root_from_hashes c hs ≡ ok root
    → merkle_root c envs ≡ ok root
unfolding merkle_root hash_leaves merkle_root_from_hashes root_on
merkle_root-leaves c [] hs root h k =
    let empty : [] ≡ hs = cc in let k1 = rw (← empty) at k in absurd (ground (arith, k1))
merkle_root-leaves c (e ∷ es) hs root h k = rw (h, merkle_root) k
