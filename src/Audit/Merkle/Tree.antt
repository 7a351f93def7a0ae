-- ===== src/Audit/Merkle/Tree.antt =====
-- The Merkle tree of RFC 6962, and the root that the code computes.
use native.Mathlib.Nat.{pow-suc}
use mathlib.Core.Path.{ap₂}
use mathlib.Core.List.{map-id}
use agentledger_mvp_v.Base.{
  ℕ, zero, suc, ◌*◌, ◌^◌, ◌≤◌, ◌<◌, ◌≡◌, refl, ap, subst, ◌∙◌, false, List, [], ◌∷◌, ◌++◌, map, All,
  length, take, drop, arith, ◌==◌, inl, inr, Bool-cases, take-append-drop, length-take, length-drop,
  length-map,
}
use agentledger_mvp_v.Base.Result.{Result, ok, ◌>>=◌}
use agentledger_mvp_v.Audit.Merkle.{
  Bytes, Primitives, MerkleError, any_bad, hash_node, root_on, merkle_root_from_hashes,
  largest_power_of_two_less_than,
}
use agentledger_mvp_v.Audit.Merkle.Power.{largest_power_of_two_lem}

pub data Tree : Type 0 where
  leaf : Bytes → Tree
  node : Tree → Tree → Tree

abbrev pub leaves : Tree → List Bytes
leaves (leaf b) = b ∷ []
leaves (node l r) = leaves l ++ leaves r

-- The left subtree of a node has as many leaves as the largest power of two below the whole.
abbrev pub IsBalanced : Tree → Type 0
IsBalanced (leaf b) = Unit
IsBalanced (node l r) =
    IsBalanced l
    × IsBalanced r
    × ((k : ℕ) × (length (leaves l) ≡ 2 ^ k) × (length (leaves r) ≤ 2 ^ k))

-- The digest of a tree whose leaves are hashed by `h`.
unfoldable pub digest : Primitives → (Bytes → Bytes) → Tree → Bytes
digest c h (leaf b) = h b
digest c h (node l r) = c.sha256 (1 ∷ digest c h l ++ digest c h r)

-- The leaves hash to 32 bytes each.
abbrev pub AllHashed : (Bytes → Bytes) → List Bytes → Type 0
AllHashed h bs = All (λ b. length (h b) ≡ 32) bs

AllHashed-any_bad :
    (h : Bytes → Bytes) (bs : List Bytes) → AllHashed h bs → any_bad (map h bs) ≡ false
AllHashed-any_bad h [] a = refl
AllHashed-any_bad h (b ∷ bs) a = rw (a.0, AllHashed-any_bad h bs a.1)

AllHashed-take :
    (h : Bytes → Bytes) (n : ℕ) (bs : List Bytes) → AllHashed h bs → AllHashed h (take n bs)
AllHashed-take h zero bs a = tt
AllHashed-take h (suc n) [] a = tt
AllHashed-take h (suc n) (b ∷ bs) a = (a.0, AllHashed-take h n bs a.1)

AllHashed-drop :
    (h : Bytes → Bytes) (n : ℕ) (bs : List Bytes) → AllHashed h bs → AllHashed h (drop n bs)
AllHashed-drop h zero bs a = a
AllHashed-drop h (suc n) [] a = tt
AllHashed-drop h (suc n) (b ∷ bs) a = AllHashed-drop h n bs a.1

take-map : (h : Bytes → Bytes) (n : ℕ) (bs : List Bytes) → take n (map h bs) ≡ map h (take n bs)
take-map h zero bs = refl
take-map h (suc n) [] = refl
take-map h (suc n) (b ∷ bs) = ap (λ l. h b ∷ l) (take-map h n bs)

drop-map : (h : Bytes → Bytes) (n : ℕ) (bs : List Bytes) → drop n (map h bs) ≡ map h (drop n bs)
drop-map h zero bs = refl
drop-map h (suc n) [] = refl
drop-map h (suc n) (b ∷ bs) = drop-map h n bs

-- The root of a tree whose leaves hash to 32 bytes has 32 bytes.
pub length-digest :
    (c : Primitives) (h : Bytes → Bytes) (t : Tree)
    → AllHashed h (leaves t)
    → length (digest c h t) ≡ 32
unfolding digest
length-digest c h (leaf b) a = a.0
length-digest c h (node l r) a = c.sha256_length (1 ∷ digest c h l ++ digest c h r)

pow_pos : (k : ℕ) → 0 < 2 ^ k
pow_pos zero = omega arith
pow_pos (suc k) = rw (pow-suc 2 k) (omega (arith, pow_pos k))

-- One call of the recursion on two leaves or more.
root_on-split :
    (c : Primitives) (fuel split : ℕ) (hashes : List Bytes)
    → 2 ≤ length hashes
    → any_bad hashes ≡ false
    → largest_power_of_two_less_than (length hashes) ≡ ok split
    → root_on c (suc fuel) hashes ≡ (
        root_on c fuel (take split hashes) >>= λ left.
        root_on c fuel (drop split hashes) >>= λ right. hash_node c left right)
unfolding root_on
root_on-split c fuel split hashes two good e =
    let nonzero : (length hashes == 0) ≡ false = ground arith in
    let several : (length hashes == 1) ≡ false = ground arith in rw (nonzero, good, several, e)

module _ (c : Primitives) (h : Bytes → Bytes) where
  -- What the code computes of the hashes of `bs`: the digest of their tree.
  abbrev pub Roots : List Bytes → Result MerkleError Bytes → Type 0
  Roots bs r = (t : Tree) × (leaves t ≡ bs) × IsBalanced t × (r ≡ ok (digest c h t))

  hash_node-digest :
      (l r : Tree)
      → AllHashed h (leaves l)
      → AllHashed h (leaves r)
      → hash_node c (digest c h l) (digest c h r) ≡ ok (digest c h (node l r))
  unfolding hash_node digest
  hash_node-digest l r p q = rw (length-digest c h l p, length-digest c h r q)

  -- The two halves of `bs`, joined by one call.
  join :
      (fuel k : ℕ) (bs : List Bytes)
      → 2 ^ k < length bs
      → length bs ≤ 2 * 2 ^ k
      → largest_power_of_two_less_than (length bs) ≡ ok (2 ^ k)
      → AllHashed h bs
      → Roots (take (2 ^ k) bs) (root_on c fuel (map h (take (2 ^ k) bs)))
      → Roots (drop (2 ^ k) bs) (root_on c fuel (map h (drop (2 ^ k) bs)))
      → Roots bs (root_on c (suc fuel) (map h bs))
  join fuel k bs lo hi e a (l, el, bl, rl) (r, er, br, rr) = (
    node l r,
    ap₂ (λ x y. x ++ y) el er ∙ take-append-drop (2 ^ k) bs,
    (
      bl,
      br,
      (
        k,
        omega (arith, ap length el, length-take (2 ^ k) bs),
        omega (arith, ap length er, length-drop (2 ^ k) bs),
      ),
    ),
    root_on-split c fuel (2 ^ k) (map h bs) (omega (arith, length-map h bs, pow_pos k))
          (AllHashed-any_bad h bs a) (rw (length-map h bs) e)
        ∙ rw (take-map h (2 ^ k) bs, drop-map h (2 ^ k) bs, rl, rr)
            (hash_node-digest l r (rw el (AllHashed-take h (2 ^ k) bs a))
              (rw er (AllHashed-drop h (2 ^ k) bs a))),
  )

  single :
      (fuel : ℕ) (bs : List Bytes)
      → length bs ≡ 1
      → AllHashed h bs
      → Roots bs (root_on c (suc fuel) (map h bs))
  unfolding root_on digest
  single fuel [] one a = absurd (omega arith)
  single fuel (b ∷ []) one a = (leaf b, refl, tt, rw a.0)
  single fuel (b ∷ b' ∷ bs) one a = absurd (omega arith)

  root_on-Roots :
      (fuel : ℕ) (bs : List Bytes)
      → length bs < fuel
      → 0 < length bs
      → AllHashed h bs
      → Roots bs (root_on c fuel (map h bs))
  root_on-Roots zero bs f p a = absurd (omega arith)
  root_on-Roots (suc fuel) bs f p a = elim (Bool-cases (length bs == 1)) [
    | inl one ↦ single fuel bs (ground arith) a
    | inr several ↦
        let (k, e, lo, hi) = largest_power_of_two_lem (length bs) (ground arith) in
        join fuel k bs lo hi e a
          (root_on-Roots fuel (take (2 ^ k) bs) (omega (arith, length-take (2 ^ k) bs))
            (omega (arith, length-take (2 ^ k) bs, pow_pos k)) (AllHashed-take h (2 ^ k) bs a))
          (root_on-Roots fuel (drop (2 ^ k) bs) (omega (arith, length-drop (2 ^ k) bs, pow_pos k))
            (omega (arith, length-drop (2 ^ k) bs)) (AllHashed-drop h (2 ^ k) bs a))
  ]

-- On the hashes of events.
pub merkle_root_from_map :
    (c : Primitives) (h : Bytes → Bytes) (bs : List Bytes)
    → 0 < length bs
    → AllHashed h bs
    → Roots c h bs (merkle_root_from_hashes c (map h bs))
unfolding merkle_root_from_hashes
merkle_root_from_map c h bs p a =
    root_on-Roots c h (suc (length (map h bs))) bs (omega (arith, length-map h bs)) p a

-- `merkle_root_from_hashes` of one 32-byte hash or more returns the digest of the balanced binary
-- tree over them, left to right, in which every left subtree is as large as a power of two allows.
pub merkle_root_from_hashes-Roots :
    (c : Primitives) (hashes : List Bytes)
    → 0 < length hashes
    → AllHashed (λ b. b) hashes
    → (t : Tree) × (leaves t ≡ hashes)
      × IsBalanced t
      × (merkle_root_from_hashes c hashes ≡ ok (digest c (λ b. b) t))
merkle_root_from_hashes-Roots c hashes p a =
    subst (λ l. Roots c (λ b. b) hashes (merkle_root_from_hashes c l)) (map-id hashes)
      (merkle_root_from_map c (λ b. b) hashes p a)
