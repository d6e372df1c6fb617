-- ===== src/Log/Hash/Collisions.antt =====
-- Collisions of SHA-256, and the trees that the two hashes of the log build: a tree hash of given
-- inputs is injective up to a collision.
use acdp_control_plane.Prelude.{
  ℕ, ◌≡◌, ◌≢◌, refl, ap, ◌⊎◌, inl, inr, List, [], ◌∷◌, ◌++◌, map, arith, length, All, Bool-cases,
}
use acdp_control_plane.Log.Hash.{Buffer, equals, equals→eq, equals_refl, leaf_bytes_hash, node_hash}
use acdp_control_plane.Log.Merkle.Layers.{root}

append_injective : (a c b d : Buffer) → length a ≡ length c → a ++ b ≡ c ++ d → (a ≡ c) × (b ≡ d)
append_injective [] [] b d len h = (refl, h)
append_injective [] (y ∷ c) b d len h = absurd (omega arith)
append_injective (x ∷ a) [] b d len h = absurd (omega arith)
append_injective (x ∷ a) (y ∷ c) b d len h =
    let tails : a ++ b ≡ c ++ d = cc h in
    let heads : x ≡ y = cc h in
    let (left, right) = append_injective a c b d (omega arith) tails in (cc, right)

abbrev pub IsDigest : Buffer → Type 0
IsDigest b = length b ≡ 32

module _ (sha256 : List ℕ → Buffer) where
  -- Two different inputs with one hash.
  abbrev pub Collision : Type 0
  Collision = (x : Buffer) × (y : Buffer) × (x ≢ y) × (sha256 x ≡ sha256 y)

  pub sha256_injective : (x y : Buffer) → sha256 x ≡ sha256 y → (x ≡ y) ⊎ Collision
  sha256_injective x y h = elim (Bool-cases (equals x y)) [
    | inl same ↦ inl (equals→eq x y same)
    | inr other ↦ inr (x, y, (λ e. cc (equals_refl x, other, ap (equals x) e)), h)
  ]

  pub node_hash_injective :
      (a b c d : Buffer)
      → IsDigest a
      → IsDigest c
      → node_hash sha256 a b ≡ node_hash sha256 c d
      → ((a ≡ c) × (b ≡ d)) ⊎ Collision
  unfolding node_hash
  node_hash_injective a b c d ga gc h = elim (sha256_injective (0x01 ∷ a ++ b) (0x01 ∷ c ++ d) h) [
    | inl same ↦ inl (append_injective a c b d (omega arith) (cc same))
    | inr hit ↦ inr hit
  ]

  pub leaf_bytes_hash_injective :
      (x y : List ℕ) → leaf_bytes_hash sha256 x ≡ leaf_bytes_hash sha256 y → (x ≡ y) ⊎ Collision
  unfolding leaf_bytes_hash
  leaf_bytes_hash_injective x y h = elim (sha256_injective (0x00 ∷ x) (0x00 ∷ y) h) [
    | inl same ↦ inl (cc same)
    | inr hit ↦ inr hit
  ]

  -- The tree head of a log, from the canonical bytes of its leaves (RFC 6962 section 2.1).
  unfoldable pub tree_head : List (List ℕ) → Buffer
  tree_head leaves =
      root (node_hash sha256) (sha256 []) (length leaves) (map (leaf_bytes_hash sha256) leaves)

  module _ (length-sha256 : (x : List ℕ) → IsDigest (sha256 x)) where
    pub node_hash-IsDigest : (a b : Buffer) → IsDigest (node_hash sha256 a b)
    unfolding node_hash
    node_hash-IsDigest a b = length-sha256 (0x01 ∷ a ++ b)

    pub leaf_bytes_hash-IsDigest : (x : List ℕ) → IsDigest (leaf_bytes_hash sha256 x)
    unfolding leaf_bytes_hash
    leaf_bytes_hash-IsDigest x = length-sha256 (0x00 ∷ x)

    pub leaves-IsDigest :
        (leaves : List (List ℕ)) → All IsDigest (map (leaf_bytes_hash sha256) leaves)
    leaves-IsDigest [] = tt
    leaves-IsDigest (x ∷ leaves) = (leaf_bytes_hash-IsDigest x, leaves-IsDigest leaves)
