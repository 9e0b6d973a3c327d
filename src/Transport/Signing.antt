-- ===== src/Transport/Signing.antt =====
-- How a message is signed, written, read and checked: Transport/messages/MessageEncoder.js,
-- `Message.serialize` of Transport/messages/message.js, Crypto/Signer.js, Crypto/CryptoHelper.js, and
-- `handleMessage` and `verify` of Topology/MessageHandler.js. The libraries crypto and node-forge are
-- parameters.
pub mod Accepted
pub mod Verified
use reloadjs.Base.{
  ℕ, ◌-◌, ◌<◌, ◌^◌, ◌≡◌, ltb, Bool, true, false, List, [], ◌∷◌, ◌++◌, Option, none, some,
  if◌then◌else◌, Text, codes, length, head?,
}
use reloadjs.Transport.Header.{Header}
use reloadjs.Transport.Wire.{SmartBuffer, IsPlain, next, given, serialize, deserialize}
use reloadjs.Transport.Content.{Content, write_content, read_content}
use reloadjs.Transport.Security.{
  SignerIdentity, cert_hash, Signature, SecurityBlock, Hash, identity_bytes, write_block,
  read_block,
}

-- What the libraries compute: the hexadecimal digest of a text by an algorithm; the signature of bytes
-- by RSA-SHA1 with a private key and its check with a public key; the public key of a certificate and
-- the value of its first extension, which is the id of the peer. `none` is an exception.
pub record Crypto : Type 0 where
  pub hash : Hash
  pub sign : Text → List ℕ → List ℕ
  pub verify : Text → List ℕ → List ℕ → Bool
  pub public_key : Text → Option Text
  pub certificate_id : Text → Option Text

-- A check with the public key of a certificate finds what the private key has signed.
pub record IsKeyPair (crypto : Crypto) (private_key certificate : Text) : Type 0 where
  pub public_key : Text
  pub of_certificate : crypto.public_key certificate ≡ some public_key
  pub accepts :
      (bytes : List ℕ) → crypto.verify public_key bytes (crypto.sign private_key bytes) ≡ true

-- SHA-1 is there, its digests are hexadecimal, and a signature is shorter than 2 ^ 16 bytes.
pub record IsCrypto (crypto : Crypto) : Type 0 where
  pub sha1 : (t : Text) → (h : Text) × (crypto.hash (codes "SHA1") t ≡ some h) × IsPlain h
  pub short : (key : Text) (bytes : List ℕ) → length (crypto.sign key bytes) < 2 ^ 16

-- The certificate and the private key of a peer.
pub record Local : Type 0 where
  pub certificate : Text
  pub private_key : Text

pub record Message : Type 0 where
  pub header : Header
  pub content : Content
  pub block : SecurityBlock

-- `SignerIdentity.singleIdIdentity`, with the hash algorithm that `CryptoHelper` calls `signAlg`.
unfoldable pub single_id_identity : Crypto → Text → Option SignerIdentity
single_id_identity crypto certificate =
    given (crypto.hash (codes "SHA1") certificate) (λ hash. some (cert_hash (codes "SHA1") hash))

-- What is signed: the overlay, the transaction, the content and the identity of the signer.
unfoldable pub signed_bytes : SmartBuffer → Header → List ℕ → SignerIdentity → List ℕ
signed_bytes b h content identity =
    (b.string_nt h.overlay ++ (b.u32 h.transaction ++ b.buffer_nt content))
    ++ identity_bytes b identity []

-- `Signer.sign`, of a signer that `newSigner` makes.
unfoldable pub sign_with :
    SmartBuffer → Crypto → Local → Header → List ℕ → SignerIdentity → Signature
unfolding signed_bytes
sign_with b crypto me h content identity = record {
  identity = identity;
  hash_alg = some (codes "SHA1");
  sign_alg = some (codes "RSA");
  digest = crypto.sign me.private_key (signed_bytes b h content identity);
}

-- `computeSecBlock`, for the bytes of the content.
unfoldable pub compute_sec_block :
    SmartBuffer → Crypto → Local → Header → List ℕ → Option SecurityBlock
unfolding single_id_identity sign_with
compute_sec_block b crypto me h content =
    given (single_id_identity crypto me.certificate) (λ identity. some (record {
      certificates = me.certificate ∷ [];
      signature = sign_with b crypto me h content identity;
    }))

-- `Message.serialize` with `MessageEncoder.serialize`: the header, the content, and the security block
-- of both.
unfoldable pub write_message : SmartBuffer → Crypto → Local → Header → Content → Option (List ℕ)
unfolding compute_sec_block
write_message b crypto me h c = given (write_content b c []) (λ content.
    given (compute_sec_block b crypto me h content) (λ block.
      given (write_block b block [])
        (λ tail. given (write_content b c tail) (λ body. serialize b h body))))

-- The order of strings by their code units.
unfoldable pub below : Text → Text → Bool
below [] [] = false
below [] (y ∷ t) = true
below (x ∷ s) [] = false
below (x ∷ s) (y ∷ t) =
    let rest = below s t in if ltb x y then true else if ltb y x then false else rest

-- `Signer.verify`, of a signer that `newSignerVerify` makes for the certificate.
unfoldable pub check_signature :
    SmartBuffer → Crypto → Header → List ℕ → Text → List ℕ → Option Bool
unfolding single_id_identity signed_bytes
check_signature b crypto h content certificate digest =
    given (crypto.certificate_id certificate) (λ id. given (crypto.public_key certificate) (λ key.
      given (single_id_identity crypto certificate)
        (λ identity. some (crypto.verify key (signed_bytes b h content identity) digest))))

-- `verify`, for the configuration sequence of this peer.
unfoldable pub verify : SmartBuffer → Crypto → Text → Header → List ℕ → SecurityBlock → Option Bool
unfolding below check_signature
verify b crypto sequence h content k =
    if below h.configuration_sequence sequence
    then some false
    else if below sequence h.configuration_sequence
    then some false
    else given (head? k.certificates)
        (λ certificate. check_signature b crypto h content certificate k.signature.digest)

-- What becomes of bytes that come in: with a bad signature they are dropped.
pub data Judgment : Type 0 where
  dropped : Judgment
  accepted : Message → Judgment

unfoldable pub judge : Message → Bool → Judgment
judge m ok = if ok then accepted m else dropped

-- `handleMessage` up to `addConnection`; `none` is an exception. The bytes of the content are those
-- that its reader has moved over.
unfoldable pub receive : SmartBuffer → Crypto → Text → List ℕ → Option Judgment
unfolding verify judge
receive b crypto sequence bytes = next (deserialize b bytes) (λ h start.
    next (read_content b start) (λ c rest. next (read_block b crypto.hash rest) (λ k left.
      next (b.read_buffer (length start - length rest) start) (λ content behind.
        given (verify b crypto sequence h content k)
          (λ ok. some (judge (record { header = h; content = c; block = k }) ok))))))
