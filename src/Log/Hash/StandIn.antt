-- ===== src/Log/Hash/StandIn.antt =====
-- A stand-in for SHA-256 that pads or cuts to 32 bytes, for concrete inputs, and a log of two leaves.
use acdp_control_plane.Prelude.{
  ℕ, zero, suc, ◌≡◌, refl, ap, String, List, [], ◌∷◌, length, some, str,
}
use acdp_control_plane.Log.Hash.{
  Buffer, wire_hash_to_buf, wire_hash_re, from_hex, leaf_bytes_hash, node_hash,
}
use acdp_control_plane.Log.Hash.Collisions.{IsDigest, tree_head}
use acdp_control_plane.Log.Merkle.Layers.{pairs, root}

unfoldable pub pad : ℕ → List ℕ → Buffer
pad zero bytes = []
pad (suc n) [] = 0 ∷ pad n []
pad (suc n) (b ∷ bytes) = b ∷ pad n bytes

length-pad : (n : ℕ) (bytes : List ℕ) → length (pad n bytes) ≡ n
unfolding pad
length-pad zero bytes = refl
length-pad (suc n) [] = ap suc (length-pad n [])
length-pad (suc n) (b ∷ bytes) = ap suc (length-pad n bytes)

unfoldable pub toy : List ℕ → Buffer
toy bytes = pad 32 bytes

pub length-toy : (bytes : List ℕ) → IsDigest (toy bytes)
unfolding toy
length-toy bytes = length-pad 32 bytes

-- A log of two leaves.
abbrev pub leaves : List (List ℕ)
leaves = (1 ∷ []) ∷ (2 ∷ []) ∷ []

abbrev pub leaf0_hash : String
leaf0_hash = "sha256:0001000000000000000000000000000000000000000000000000000000000000"

abbrev pub leaf1_hash : String
leaf1_hash = "sha256:0002000000000000000000000000000000000000000000000000000000000000"

abbrev pub root_hash : String
root_hash = "sha256:0100010000000000000000000000000000000000000000000000000000000000"

pub root_decodes : wire_hash_to_buf (str root_hash) ≡ some (tree_head toy leaves)
unfolding toy pad wire_hash_to_buf wire_hash_re from_hex leaf_bytes_hash node_hash tree_head pairs
    root
root_decodes = refl
