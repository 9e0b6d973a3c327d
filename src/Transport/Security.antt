-- ===== src/Transport/Security.antt =====
-- Transport/messages/secBlock: SecurityBlock.js, GenericCertificate.js, Signature.js,
-- SignerIdentity.js, CertHashSignerIdentityValue.js, CertHashNodeIdSignerIdentityValue.js,
-- NoneSignerIdentityValue.js, HashAlgorithm.js and SignatureAlgorithm.js. `createHash` of the module
-- crypto is a parameter: the hexadecimal digest of a text by an algorithm, where `none` is the throw on
-- an algorithm that it does not have.
pub mod RoundTrip
use reloadjs.Base.{
  ℕ, zero, suc, ◌+◌, ◌<◌, ◌^◌, ◌≡◌, ◌==◌, ltb, Bool, ◌&&◌, List, [], ◌∷◌, ◌++◌, Option, none, some,
  if◌then◌else◌, Text, codes, same, length,
}
use reloadjs.Transport.Wire.{SmartBuffer, next, given}

-- `HashAlgorithm`: the code under a name, and `valueOf`. A name without a number reads something that
-- `writeUInt8` writes as 0, and so does null.
unfoldable pub hash_code : Option Text → ℕ
hash_code none = 0
hash_code (some name) =
    if same name (codes "MD5")
    then 1
    else if same name (codes "SHA1")
    then 2
    else if same name (codes "SHA224")
    then 3
    else if same name (codes "SHA256")
    then 4
    else if same name (codes "SHA384")
    then 5
    else if same name (codes "SHA512")
    then 6
    else 0

unfoldable pub hash_name : ℕ → Option Text
hash_name n =
    if n == 0
    then some (codes "node")
    else if n == 1
    then some (codes "MD5")
    else if n == 2
    then some (codes "SHA1")
    else if n == 3
    then some (codes "SHA224")
    else if n == 4
    then some (codes "SHA256")
    else if n == 5
    then some (codes "SHA384")
    else if n == 6
    then some (codes "SHA512")
    else none

-- `SignatureAlgorithm`.
unfoldable pub signature_code : Option Text → ℕ
signature_code none = 0
signature_code (some name) =
    if same name (codes "RSA")
    then 1
    else if same name (codes "DSA")
    then 2
    else if same name (codes "ECDSA")
    then 3
    else 0

unfoldable pub signature_name : ℕ → Option Text
signature_name n =
    if n == 0
    then some (codes "ANONYMOUS")
    else if n == 1
    then some (codes "RSA")
    else if n == 2
    then some (codes "DSA")
    else if n == 3
    then some (codes "ECDSA")
    else none

-- `SignerIdentity`: the name of a hash algorithm and a hash, for two of its types.
pub data SignerIdentity : Type 0 where
  cert_hash cert_hash_node_id : Text → Text → SignerIdentity
  no_identity : SignerIdentity

-- The names of the algorithms are null where `valueOf` knows no name of a code.
pub record Signature : Type 0 where
  pub identity : SignerIdentity
  pub hash_alg : Option Text
  pub sign_alg : Option Text
  pub digest : List ℕ

pub record SecurityBlock : Type 0 where
  pub certificates : List Text
  pub signature : Signature

-- `SignerIdentity.serialize` and those of the values, with what is written behind them.
unfoldable pub identity_bytes : SmartBuffer → SignerIdentity → List ℕ → List ℕ
identity_bytes b (cert_hash alg hash) rest =
    b.u8 1 ++ (b.u8 (hash_code (some alg)) ++ (b.string_nt hash ++ rest))
identity_bytes b (cert_hash_node_id alg hash) rest =
    b.u8 2 ++ (b.u8 (hash_code (some alg)) ++ (b.string_nt hash ++ rest))
identity_bytes b no_identity rest = b.u8 3 ++ rest

-- `Signature.serialize`; a digest that is too long throws.
unfoldable pub write_signature : SmartBuffer → Signature → List ℕ → Option (List ℕ)
unfolding identity_bytes
write_signature b s rest =
    if ltb (length s.digest) (2 ^ 16)
    then some (
        b.u8 (hash_code s.hash_alg)
        ++ (b.u8 (signature_code s.sign_alg)
            ++ identity_bytes b s.identity (b.u16 (length s.digest) ++ (s.digest ++ rest))))
    else none

unfoldable pub certificate_bytes : SmartBuffer → List Text → List ℕ → List ℕ
certificate_bytes b [] rest = rest
certificate_bytes b (c ∷ cs) rest = b.string_nt c ++ certificate_bytes b cs rest

-- `SecurityBlock.serialize`.
unfoldable pub write_block : SmartBuffer → SecurityBlock → List ℕ → Option (List ℕ)
unfolding write_signature certificate_bytes
write_block b k rest =
    if ltb (length k.certificates) (2 ^ 8)
    then given (write_signature b k.signature rest)
        (λ w. some (b.u8 (length k.certificates) ++ certificate_bytes b k.certificates w))
    else none

abbrev pub Hash : Type 0
Hash = Text → Text → Option Text

-- `deSerialize` of the two values that hold a hash: it hashes the text that it reads once more.
unfoldable pub read_hash :
    SmartBuffer → Hash → (Text → Text → SignerIdentity) → List ℕ → Option (SignerIdentity × List ℕ)
read_hash b hash made bytes = next (b.read_u8 bytes) (λ code rest. given (hash_name code) (λ alg.
    next (b.read_string_nt rest)
      (λ text rest. given (hash alg text) (λ again. some (made alg again, rest)))))

-- `SignerIdentity.deSerialize`; the class of the type 3 is the module of the class, which has no
-- `deSerialize`, and calling that throws.
unfoldable pub read_identity : SmartBuffer → Hash → List ℕ → Option (SignerIdentity × List ℕ)
unfolding read_hash
read_identity b hash bytes = next (b.read_u8 bytes) (λ code rest.
    if code == 1
    then read_hash b hash cert_hash rest
    else if code == 2
    then read_hash b hash cert_hash_node_id rest
    else none)

-- `Signature.deSerialize`.
unfoldable pub read_signature : SmartBuffer → Hash → List ℕ → Option (Signature × List ℕ)
unfolding read_identity
read_signature b hash bytes = next (b.read_u8 bytes) (λ hash_code rest.
    next (b.read_u8 rest) (λ sign_code rest. next (read_identity b hash rest) (λ identity rest.
      next (b.read_u16 rest) (λ size rest. next (b.read_buffer size rest) (λ digest rest. some (
        record {
          identity = identity;
          hash_alg = hash_name hash_code;
          sign_alg = signature_name sign_code;
          digest = digest;
        },
        rest,
      ))))))

unfoldable pub read_certificates : SmartBuffer → ℕ → List ℕ → Option (List Text × List ℕ)
read_certificates b zero bytes = some ([], bytes)
read_certificates b (suc n) bytes =
    next (b.read_string_nt bytes)
      (λ c rest. next (read_certificates b n rest) (λ cs rest. some (c ∷ cs, rest)))

-- `SecurityBlock.deSerialize`.
unfoldable pub read_block : SmartBuffer → Hash → List ℕ → Option (SecurityBlock × List ℕ)
unfolding read_certificates read_signature
read_block b hash bytes = next (b.read_u8 bytes) (λ count rest.
    next (read_certificates b count rest) (λ cs rest.
      next (read_signature b hash rest)
        (λ s rest. some (record { certificates = cs; signature = s }, rest))))
