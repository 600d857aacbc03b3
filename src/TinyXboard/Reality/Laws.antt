-- ===== src/TinyXboard/Reality/Laws.antt =====
-- What `ensureRealityKeypair` (tiny-xboard/reality.go) guarantees of the pair that it leaves.
use mini_sb_xboard_agent.Base.{
  ℕ, ◌≡◌, Bool, true, false, some, List, arith, length, ok, Bool-cases, inl, inr, Option-cases,
  Result-cases,
}
use mini_sb_xboard_agent.Base.Text.{Text, text_beq_iff, is_empty}
use mini_sb_xboard_agent.TinyXboard.Schema.{NodeEntry}
use mini_sb_xboard_agent.TinyXboard.Reality.{
  Crypto, with_keys, derive_reality_public_key, valid_reality_key, serves_vless,
  ensure_reality_keypair,
}

-- What the program relies on of base64 and X25519: decoding undoes encoding, an encoding of a key is
-- not empty, and generated private keys and all public keys have 32 bytes.
pub record CryptoLaws (c : Crypto) : Type 0 where
  pub decode-encode : (b : List ℕ) → c.decode_base64 (c.encode_base64 b) ≡ some b
  pub encode_nonempty : (b : List ℕ) → is_empty (c.encode_base64 b) ≡ true → length b ≡ 0
  pub generated : (k : List ℕ) → c.generate ≡ some k → (length k ≡ 32) × (c.is_private_key k ≡ true)
  pub public_length : (k : List ℕ) → length (c.public_key k) ≡ 32

-- Served nodes have a pair whose public key is derived from the private key.
pub record HasPair (c : Crypto) (e : NodeEntry) : Type 0 where
  pub has_private : is_empty e.tls.private_key ≡ false
  pub has_public : is_empty e.tls.public_key ≡ false
  pub private_valid : valid_reality_key c e.tls.private_key ≡ true
  pub public_valid : valid_reality_key c e.tls.public_key ≡ true
  pub derived : derive_reality_public_key c e.tls.private_key ≡ ok e.tls.public_key

module _ (c : Crypto) (laws : CryptoLaws c) where
  generated-HasPair :
      (e : NodeEntry) (k : List ℕ)
      → c.generate ≡ some k
      → HasPair c (with_keys e (c.encode_base64 k) (c.encode_base64 (c.public_key k)))
  unfolding with_keys valid_reality_key derive_reality_public_key
  generated-HasPair e k g = ground (
    arith,
    laws.generated k g,
    laws.public_length k,
    laws.decode-encode k,
    laws.decode-encode (c.public_key k),
    laws.encode_nonempty k,
    laws.encode_nonempty (c.public_key k),
  )

  derived_public_valid :
      (p q : Text)
      → derive_reality_public_key c p ≡ ok q
      → (valid_reality_key c q ≡ true) × (is_empty q ≡ false)
  unfolding derive_reality_public_key valid_reality_key
  derived_public_valid p q h = elim (Option-cases (c.decode_base64 p)) [
    | inl e ↦ absurd (ground arith)
    | inr (raw, e) ↦ ground (
      arith,
      laws.public_length raw,
      laws.decode-encode (c.public_key raw),
      laws.encode_nonempty (c.public_key raw),
    )
  ]

  fresh-HasPair :
      (e : NodeEntry) {e' : NodeEntry} {changed : Bool}
      → serves_vless e ≡ true
      → is_empty e.tls.private_key ≡ true
      → ensure_reality_keypair c e ≡ ok (e', changed)
      → HasPair c e'
  unfolding ensure_reality_keypair
  fresh-HasPair e s p h = elim (Option-cases c.generate) [
    | inl g ↦ absurd (ground arith)
    | inr (k, g) ↦ ground (arith, generated-HasPair e k g)
  ]

  existing-HasPair :
      (e : NodeEntry) {e' : NodeEntry} {changed : Bool}
      → serves_vless e ≡ true
      → is_empty e.tls.private_key ≡ false
      → ensure_reality_keypair c e ≡ ok (e', changed)
      → HasPair c e'
  unfolding ensure_reality_keypair
  existing-HasPair e s p h = elim (Result-cases (derive_reality_public_key c e.tls.private_key)) [
    | inl (x, d) ↦ absurd (ground arith)
    | inr (q, d) ↦
        ground (arith, derived_public_valid e.tls.private_key q d, text_beq_iff e.tls.public_key q)
  ]

  -- If `ensureRealityKeypair` accepts a node that serves VLESS, the node it leaves has two
  -- well-formed keys, and the public one is derived from the private one.
  pub ensure-HasPair :
      (e : NodeEntry) {e' : NodeEntry} {changed : Bool}
      → serves_vless e ≡ true
      → ensure_reality_keypair c e ≡ ok (e', changed)
      → HasPair c e'
  ensure-HasPair e s h = elim (Bool-cases (is_empty e.tls.private_key)) [
    | inl unset ↦ fresh-HasPair e s unset h
    | inr set ↦ existing-HasPair e s set h
  ]

module _ (c : Crypto) where
  -- If `ensureRealityKeypair` accepts a node whose private key is set, that key stays, and with a
  -- public key beside it the whole node stays and is not reported as changed.
  pub ensure_keeps_identity :
      (e : NodeEntry) {e' : NodeEntry} {changed : Bool}
      → is_empty e.tls.private_key ≡ false
      → ensure_reality_keypair c e ≡ ok (e', changed)
      → (e'.tls.private_key ≡ e.tls.private_key)
        × (is_empty e.tls.public_key ≡ false → (e' ≡ e) × (changed ≡ false))
  unfolding ensure_reality_keypair
  ensure_keeps_identity e p h = ground arith

  -- A node whose two keys are well-formed, the public one derived from the private one, is accepted
  -- and left alone.
  pub ensure_settled : (e : NodeEntry) → HasPair c e → ensure_reality_keypair c e ≡ ok (e, false)
  unfolding ensure_reality_keypair
  ensure_settled e h = ground (arith, text_beq_iff e.tls.public_key e.tls.public_key)
