-- ===== src/Audit/Merkle/Collision.antt =====
-- Two histories with one Merkle root are the same history, or SHA-256 collides within their trees. The
-- prefixes of leaves and nodes keep a node from passing for a leaf, so the lengths may differ.
use native.Mathlib.Decide.{ℕ_discrete}
use mathlib.Core.Path.{ap₂}
use agentledger_mvp_v.Base.{
  ◌<◌, ◌≡◌, refl, ◌≢◌, sym, ap, subst, ◌∙◌, List, [], ◌∷◌, ◌++◌, map, All, length, arith, ◌⊎◌, inl,
  inr, length-map, IsRow, IsRow-append_left, IsRow-append_right,
}
use agentledger_mvp_v.Base.Json.{Fields, obj}
use agentledger_mvp_v.Base.Result.{Result, ok, Result-cases}
use agentledger_mvp_v.Audit.Merkle.{
  Bytes, Primitives, MerkleError, canonical_json, hash_leaves, merkle_root, merkle_root_from_hashes,
}
use agentledger_mvp_v.Audit.Merkle.Tree.{
  Tree, leaf, node, leaves, IsBalanced, digest, AllHashed, length-digest, merkle_root_from_map,
}

Bytes-discrete : Discrete Bytes
Bytes-discrete = hlevel ℕ_discrete

-- Two inputs of SHA-256 with one output, one of those in `P` and one of those in `Q`.
abbrev pub Collision : Primitives → (P Q : Bytes → Type 0) → Type 0
Collision c P Q = (a : Bytes) × (b : Bytes) × P a × Q b × (a ≢ b) × (c.sha256 a ≡ c.sha256 b)

pub Collision-imp :
    (c : Primitives) {P Q P' Q' : Bytes → Type 0} (f : (a : Bytes) → P a → P' a)
    (g : (b : Bytes) → Q b → Q' b)
    → Collision c P Q
    → Collision c P' Q'
Collision-imp c f g (a, b, p, q, ne, e) = (a, b, f a p, g b q, ne, e)

module _ (c : Primitives) where
  pub same_or_Collision :
      {P Q : Bytes → Type 0} (a b : Bytes)
      → P a
      → Q b
      → c.sha256 a ≡ c.sha256 b
      → (a ≡ b) ⊎ Collision c P Q
  same_or_Collision a b p q e = elim (Bytes-discrete a b) [
    | yes same ↦ inl same
    | no ne ↦ inr (a, b, p, q, ne, e)
  ]

  -- `hash_leaf` of canonical bytes.
  abbrev leaf_hash : Bytes → Bytes
  leaf_hash b = c.sha256 (0 ∷ b)

  leaf_hash-AllHashed : (bs : List Bytes) → AllHashed leaf_hash bs
  leaf_hash-AllHashed [] = tt
  leaf_hash-AllHashed (b ∷ bs) = (c.sha256_length (0 ∷ b), leaf_hash-AllHashed bs)

append_split : (a b x y : Bytes) → length a ≡ length b → a ++ x ≡ b ++ y → (a ≡ b) × (x ≡ y)
append_split [] [] x y n e = (refl, e)
append_split [] (h ∷ b) x y n e = absurd (omega arith)
append_split (h ∷ a) [] x y n e = absurd (omega arith)
append_split (h ∷ a) (k ∷ b) x y n e =
    let (p, q) = append_split a b x y (omega arith) (cc) in (cc, q)

module _ (c : Primitives) where
  same_length : (t u : Tree) → length (digest c (leaf_hash c) t) ≡ length (digest c (leaf_hash c) u)
  same_length t u = omega (
    arith,
    length-digest c (leaf_hash c) t (leaf_hash-AllHashed c (leaves t)),
    length-digest c (leaf_hash c) u (leaf_hash-AllHashed c (leaves u)),
  )

  -- The inputs of SHA-256 in the digest of a tree.
  abbrev pub inputs : Tree → List Bytes
  inputs (leaf b) = (0 ∷ b) ∷ []
  inputs (node l r) =
      (1 ∷ digest c (leaf_hash c) l ++ digest c (leaf_hash c) r) ∷ inputs l ++ inputs r

  abbrev TreeCollision : Tree → Tree → Type 0
  TreeCollision t u = Collision c (λ a. IsRow a (inputs t)) (λ b. IsRow b (inputs u))

  same_tree :
      (t u : Tree)
      → digest c (leaf_hash c) t ≡ digest c (leaf_hash c) u
      → (t ≡ u) ⊎ TreeCollision t u
  unfolding digest
  same_tree (leaf a) (leaf b) e =
      elim (same_or_Collision c {P = λ x. IsRow x (inputs (leaf a))}
        {Q = λ x. IsRow x (inputs (leaf b))} (0 ∷ a) (0 ∷ b) (inl refl) (inl refl) e) [
          | inl p ↦ inl (let q : a ≡ b = cc in ap leaf q)
          | inr k ↦ inr k
        ]
  same_tree (leaf a) (node l r) e = inr (0 ∷ a, _, inl refl, inl refl, (λ p. cc), e)
  same_tree (node l r) (leaf b) e = inr (_, 0 ∷ b, inl refl, inl refl, (λ p. cc), e)
  same_tree (node l r) (node l' r') e =
      elim (same_or_Collision c {P = λ x. IsRow x (inputs (node l r))}
        {Q = λ x. IsRow x (inputs (node l' r'))} _ _ (inl refl) (inl refl) e) [
          | inr k ↦ inr k
          | inl p ↦
              let d = digest c (leaf_hash c) in
              let (pl, pr) = append_split (d l) (d l') (d r) (d r') (same_length l l') (cc) in
              elim (same_tree l l' pl) [
                | inr k ↦ inr (
                    Collision-imp c (λ a w. inr (IsRow-append_left a (inputs l) (inputs r) w))
                      (λ b w. inr (IsRow-append_left b (inputs l') (inputs r') w)) k)
                | inl ql ↦ elim (same_tree r r' pr) [
                  | inr k ↦ inr (
                      Collision-imp c (λ a w. inr (IsRow-append_right a (inputs l) (inputs r) w))
                        (λ b w. inr (IsRow-append_right b (inputs l') (inputs r') w)) k)
                  | inl qr ↦ inl (ap₂ node ql qr)
                ]
              ]
        ]

  -- The canonical bytes of the events of a history.
  abbrev pub canonical : Fields → Result MerkleError Bytes
  canonical event = canonical_json c (obj event)

  pub hash_leaves-ok :
      (events : List Fields) (hs : List Bytes)
      → hash_leaves c events ≡ ok hs
      → (bs : List Bytes) × (map canonical events ≡ map ok bs) × (hs ≡ map (leaf_hash c) bs)
  unfolding hash_leaves
  hash_leaves-ok [] hs e = ([], refl, cc)
  hash_leaves-ok (event ∷ events) hs e = elim (Result-cases (canonical event)) [
    | inr (x, q) ↦ absurd (ground arith)
    | inl (b, q) ↦ elim (Result-cases (hash_leaves c events)) [
      | inr (x, r) ↦ absurd (ground arith)
      | inl (hs', r) ↦
          let (bs, m, w) = hash_leaves-ok events hs' r in (b ∷ bs, rw (q, m), ground (arith, w))
    ]
  ]

-- A root that the code returns is the digest of a tree over the canonical bytes of the events.
merkle_root-tree :
    (c : Primitives) (events : List Fields) (root : Bytes)
    → merkle_root c events ≡ ok root
    → (bs : List Bytes) × (map (canonical c) events ≡ map ok bs)
      × ((t : Tree) × (leaves t ≡ bs) × IsBalanced t × (root ≡ digest c (leaf_hash c) t))
unfolding merkle_root
merkle_root-tree c [] root e = cc
merkle_root-tree c (event ∷ events) root e = elim (Result-cases (hash_leaves c (event ∷ events))) [
  | inr (x, r) ↦ absurd (ground arith)
  | inl (hs, r) ↦
      let (bs, m, w) = hash_leaves-ok c (event ∷ events) hs r in
      let made : merkle_root_from_hashes c (map (leaf_hash c) bs) ≡ ok root =
        let made : merkle_root_from_hashes c hs ≡ ok root = ground arith in rw w at made in
      let (t, l, b, d) =
        merkle_root_from_map c (leaf_hash c) bs
          (omega (arith, ap length m, length-map {B = Result MerkleError Bytes} ok bs))
          (leaf_hash-AllHashed c bs) in
      (bs, m, (t, l, b, cc (made, d)))
]

-- `x` is an input of SHA-256 in the Merkle tree of the events, whose root is given: a leaf, or a node over
-- the digests of its two subtrees.
abbrev pub IsInput : Primitives → List Fields → Bytes → Bytes → Type 0
IsInput c events root x =
    (t : Tree) × (map (canonical c) events ≡ map ok (leaves t))
    × IsBalanced t
    × (root ≡ digest c (leaf_hash c) t)
    × IsRow x (inputs c t)

-- Two histories of events with one Merkle root have the same canonical bytes, event by event, and so
-- the same number of events; otherwise SHA-256 gives one output for two different inputs, one in the
-- Merkle tree of the first and one in the tree of the second.
pub merkle_root_binds :
    (c : Primitives) (events events' : List Fields) (root : Bytes)
    → merkle_root c events ≡ ok root
    → merkle_root c events' ≡ ok root
    → (map (canonical c) events ≡ map (canonical c) events')
      ⊎ Collision c (IsInput c events root) (IsInput c events' root)
merkle_root_binds c events events' root e e' =
    let (bs, m, (t, l, b, d)) = merkle_root-tree c events root e in
    let (bs', m', (t', l', b', d')) = merkle_root-tree c events' root e' in
    elim (same_tree c t t' (sym d ∙ d')) [
      | inl p ↦ inl (m ∙ ap (map ok) (sym l ∙ ap leaves p ∙ l') ∙ sym m')
      | inr k ↦ inr (
          Collision-imp c (λ x w. (t, m ∙ ap (map ok) (sym l), b, d, w))
            (λ x w. (t', m' ∙ ap (map ok) (sym l'), b', d', w)) k)
    ]

digest-IsBytes : (c : Primitives) (t : Tree) → All (λ x. x < 256) (digest c (leaf_hash c) t)
unfolding digest
digest-IsBytes c (leaf b) = c.sha256_bytes (0 ∷ b)
digest-IsBytes c (node l r) = c.sha256_bytes _

-- A root consists of bytes.
pub merkle_root-IsBytes :
    (c : Primitives) (events : List Fields) (root : Bytes)
    → merkle_root c events ≡ ok root
    → All (λ x. x < 256) root
merkle_root-IsBytes c events root e =
    let (bs, m, (t, l, b, d)) = merkle_root-tree c events root e in
    subst (All (λ x. x < 256)) (sym d) (digest-IsBytes c t)
