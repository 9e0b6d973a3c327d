-- ===== src/Transport/Security/RoundTrip.antt =====
-- A security block of Transport/messages/secBlock that is written is read back.
use mathlib.Core.Path.{subst}
use reloadjs.Base.{
  some_inv, ℕ, ◌<◌, ◌^◌, ◌≡◌, refl, ap, ◌∙◌, ltb, List, [], ◌∷◌, ◌++◌, Option, none, some, arith,
  lt→ltb, Text, length, All,
}
use reloadjs.Transport.Wire.{
  SmartBuffer, IsSmartBuffer, IsPlain, given, given-some, given_inv, checked, checked_inv,
}
use reloadjs.Transport.Security.{
  hash_code, hash_name, signature_code, signature_name, SignerIdentity, cert_hash,
  cert_hash_node_id, no_identity, Signature, SecurityBlock, identity_bytes, write_signature,
  certificate_bytes, write_block, Hash, read_hash, read_identity, read_signature, read_certificates,
  read_block,
}

-- A name that `valueOf` gives back from its code.
abbrev pub IsHashName : Option Text → Type 0
IsHashName name = hash_name (hash_code name) ≡ name

abbrev pub IsSignatureName : Option Text → Type 0
IsSignatureName name = signature_name (signature_code name) ≡ name

-- What the reader makes of an identity: the hash of the hash.
unfoldable pub hash_again : Hash → SignerIdentity → Option SignerIdentity
hash_again hash (cert_hash alg text) = given (hash alg text) (λ h. some (cert_hash alg h))
hash_again hash (cert_hash_node_id alg text) =
    given (hash alg text) (λ h. some (cert_hash_node_id alg h))
hash_again hash no_identity = none

abbrev pub IsSoundIdentity : SignerIdentity → Type 0
IsSoundIdentity (cert_hash alg text) = IsHashName (some alg) × IsPlain text
IsSoundIdentity (cert_hash_node_id alg text) = IsHashName (some alg) × IsPlain text
IsSoundIdentity no_identity = Unit

pub record IsSoundBlock (k : SecurityBlock) : Type 0 where
  pub plain : All IsPlain k.certificates
  pub identity : IsSoundIdentity k.signature.identity
  pub hash_alg : IsHashName k.signature.hash_alg
  pub sign_alg : IsSignatureName k.signature.sign_alg

hash_code-lt : (name : Option Text) → hash_code name < 2 ^ 8
unfolding hash_code
hash_code-lt none = omega arith
hash_code-lt (some name) = ground arith

signature_code-lt : (name : Option Text) → signature_code name < 2 ^ 8
unfolding signature_code
signature_code-lt none = omega arith
signature_code-lt (some name) = ground arith

module _ (b : SmartBuffer) (law : IsSmartBuffer b) (hash : Hash) where
  read_hash_back :
      (made : Text → Text → SignerIdentity) (alg text again : Text) (rest : List ℕ)
      → IsHashName (some alg)
      → IsPlain text
      → hash alg text ≡ some again
      → read_hash b hash made (b.u8 (hash_code (some alg)) ++ (b.string_nt text ++ rest))
        ≡ some (made alg again, rest)
  unfolding read_hash
  read_hash_back made alg text again rest n p e =
      rw (law.u8_back (hash_code (some alg)) (hash_code-lt (some alg)) (b.string_nt text ++ rest))
        (given-some _ n ∙ rw (law.string_back text p rest) (given-some _ e))

  read_identity_back :
      (identity again : SignerIdentity) (rest : List ℕ)
      → IsSoundIdentity identity
      → hash_again hash identity ≡ some again
      → read_identity b hash (identity_bytes b identity rest) ≡ some (again, rest)
  unfolding read_identity identity_bytes hash_again
  read_identity_back (cert_hash alg text) again rest (n, p) e =
      let (h, found, made) = given_inv (hash alg text) e in
      rw (law.u8_back 1 (omega arith) (b.u8 (hash_code (some alg)) ++ (b.string_nt text ++ rest))) (
        read_hash_back cert_hash alg text h rest n p found
        ∙ ap (λ (x : SignerIdentity). some (x, rest)) (cc made))
  read_identity_back (cert_hash_node_id alg text) again rest (n, p) e =
      let (h, found, made) = given_inv (hash alg text) e in
      rw (law.u8_back 2 (omega arith) (b.u8 (hash_code (some alg)) ++ (b.string_nt text ++ rest))) (
        read_hash_back cert_hash_node_id alg text h rest n p found
        ∙ ap (λ (x : SignerIdentity). some (x, rest)) (cc made))
  read_identity_back no_identity again rest s e = cc

  read_certificates-certificate_bytes :
      (cs : List Text) (rest : List ℕ)
      → All IsPlain cs
      → read_certificates b (length cs) (certificate_bytes b cs rest) ≡ some (cs, rest)
  unfolding read_certificates certificate_bytes
  read_certificates-certificate_bytes [] rest p = refl
  read_certificates-certificate_bytes (c ∷ cs) rest p =
      rw
        (
          law.string_back c p.0 (certificate_bytes b cs rest),
          read_certificates-certificate_bytes cs rest p.1,
        )
        refl

  -- The signature of a block with a sound identity that can be hashed again.
  read_signature_back :
      (s : Signature) (again : SignerIdentity) (rest w : List ℕ)
      → IsHashName s.hash_alg
      → IsSignatureName s.sign_alg
      → IsSoundIdentity s.identity
      → hash_again hash s.identity ≡ some again
      → write_signature b s rest ≡ some w
      → read_signature b hash w ≡ some (record s { identity = again }, rest)
  unfolding write_signature read_signature
  read_signature_back s again rest w n m p e written =
      let (short, made) = checked_inv (ltb (length s.digest) (2 ^ 16)) written in
      subst (λ (x : List ℕ). read_signature b hash x ≡ some (record s { identity = again }, rest))
        (some_inv made)
        (rw
          (
            read_signature,
            law.u8_back (hash_code s.hash_alg) (hash_code-lt s.hash_alg) _,
            law.u8_back (signature_code s.sign_alg) (signature_code-lt s.sign_alg) _,
            read_identity_back s.identity again (b.u16 (length s.digest) ++ (s.digest ++ rest)) p e,
            law.u16_back (length s.digest) (ground (arith, short)) (s.digest ++ rest),
            law.buffer_back s.digest rest,
            n,
            m,
          )
          refl)

  -- Over a buffer library that reads back what it wrote: a block whose certificates and hash are ASCII
  -- and whose algorithms the tables name is read with the certificates, algorithms and digest that it
  -- was written with. The hash that identifies the signer is not the one that was written but the hash
  -- of its text, if there is an algorithm of that name.
  pub read_block-write_block :
      (k : SecurityBlock) (again : SignerIdentity) (rest bytes : List ℕ)
      → IsSoundBlock k
      → hash_again hash k.signature.identity ≡ some again
      → write_block b k rest ≡ some bytes
      → read_block b hash bytes
        ≡ some (record k { signature = record k.signature { identity = again } }, rest)
  unfolding write_block read_block
  read_block-write_block k again rest bytes s e written =
      let (few, made) = checked_inv (ltb (length k.certificates) (2 ^ 8)) written in
      let (w, signed, all) = given_inv (write_signature b k.signature rest) made in
      subst
        (λ (x : List ℕ).
          read_block b hash x
          ≡ some (record k { signature = record k.signature { identity = again } }, rest))
        (some_inv all)
        (rw
          (
            read_block,
            law.u8_back (length k.certificates) (ground (arith, few)) _,
            read_certificates-certificate_bytes k.certificates w s.plain,
            read_signature_back k.signature again rest w s.hash_alg s.sign_alg s.identity e signed,
          )
          refl)

-- A block with few certificates and a short digest is written.
pub write_block_succeeds :
    (b : SmartBuffer) (k : SecurityBlock) (rest : List ℕ)
    → length k.certificates < 2 ^ 8
    → length k.signature.digest < 2 ^ 16
    → (bytes : List ℕ) × (write_block b k rest ≡ some bytes)
unfolding write_block write_signature
write_block_succeeds b k rest few short =
    (_, checked _ (lt→ltb _ _ few) ∙ given-some _ (checked _ (lt→ltb _ _ short)))
