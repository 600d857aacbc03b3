-- ===== src/TinyXboard/Reality.antt =====
-- tiny-xboard/reality.go: the X25519 key pair of a node that serves VLESS Reality. The base64 and
-- X25519 routines of Go's library are the parameter `Crypto`.
pub mod Laws
use mini_sb_xboard_agent.Base.{
  ℕ, ◌≡◌, Bool, true, false, not, ◌&&◌, ◌||◌, Option, none, some, List, [], ◌∷◌, nat_beq, ◌==◌,
  length, if◌then◌else◌, Result, ok, err, ◌>>=◌, ◌>>◌, fail_if,
}
use mini_sb_xboard_agent.Base.Text.{Text, text_eq, is_empty}
use mini_sb_xboard_agent.TinyXboard.Schema.{NodeEntry}
use mini_sb_xboard_agent.TinyXboard.NodeType.{normalize_node_type, vless, both}

-- Keys are byte strings. `generate` is the key that the random source gives, if it does not fail.
pub record Crypto : Type 0 where
  pub decode_base64 : Text → Option (List ℕ)
  pub encode_base64 : List ℕ → Text
  pub generate : Option (List ℕ)
  pub is_private_key : List ℕ → Bool
  pub public_key : List ℕ → List ℕ

pub data RealityError : Type 0 where
  no_randomness bad_private_key bad_public_key mismatch no_private_key : RealityError

unfoldable pub with_keys : NodeEntry → Text → Text → NodeEntry
with_keys e private public = record e {
  tls = record e.tls { private_key = private; public_key = public };
}

-- `typ == "vless" || typ == "both"`
unfoldable pub serves_vless : NodeEntry → Bool
serves_vless e = let t = normalize_node_type e.type in t == vless || t == both

module _ (c : Crypto) where
  unfoldable pub generate_reality_keypair : Result RealityError (Text × Text)
  generate_reality_keypair = elim c.generate [
    | none ↦ err no_randomness
    | some k ↦ ok (c.encode_base64 k, c.encode_base64 (c.public_key k))
  ]

  derive_from : List ℕ → Result RealityError Text
  derive_from raw =
      if nat_beq (length raw) 32 && c.is_private_key raw
      then ok (c.encode_base64 (c.public_key raw))
      else err bad_private_key

  unfoldable pub derive_reality_public_key : Text → Result RealityError Text
  unfolding derive_from
  derive_reality_public_key private = elim (c.decode_base64 private) [
    | none ↦ err bad_private_key
    | some raw ↦ derive_from raw
  ]

  unfoldable pub valid_reality_key : Text → Bool
  valid_reality_key s = elim (c.decode_base64 s) [
    | none ↦ false
    | some raw ↦ nat_beq (length raw) 32
  ]

  -- The public key of a node, against the one that its private key gives.
  check_public_key : NodeEntry → Text → Result RealityError (NodeEntry × Bool)
  unfolding with_keys valid_reality_key
  check_public_key e expected =
      if is_empty e.tls.public_key
      then ok (with_keys e e.tls.private_key expected, true)
      else if not (valid_reality_key e.tls.public_key)
      then err bad_public_key
      else if not (e.tls.public_key == expected)
      then err mismatch
      else ok (e, false)

  -- A node with a private key.
  check_keypair : NodeEntry → Result RealityError (NodeEntry × Bool)
  unfolding derive_reality_public_key valid_reality_key check_public_key
  check_keypair e = do
    fail_if (not (valid_reality_key e.tls.private_key)) bad_private_key
    expected ← derive_reality_public_key e.tls.private_key
    check_public_key e expected

  -- `ensureRealityKeypair`: the entry afterwards, and whether it changed.
  unfoldable pub ensure_reality_keypair : NodeEntry → Result RealityError (NodeEntry × Bool)
  unfolding serves_vless generate_reality_keypair check_keypair with_keys
  ensure_reality_keypair e =
      if not (serves_vless e)
      then ok (e, false)
      else if is_empty e.tls.private_key && is_empty e.tls.public_key
      then (generate_reality_keypair >>= λ p. ok (with_keys e p.0 p.1, true))
      else if is_empty e.tls.private_key
      then err no_private_key
      else check_keypair e
