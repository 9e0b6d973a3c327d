-- ===== src/Transport/Signing/Verified.antt =====
-- What `handleMessage` of Topology/MessageHandler.js accepts.
use mathlib.Core.Path.{subst}
use reloadjs.Base.{
  some_inv, ℕ, ◌≡◌, refl, ap, ◌∙◌, Bool, true, false, List, [], ◌∷◌, Option, some, arith, Text,
  head?, length, ◌-◌, if◌then◌else◌,
}
use reloadjs.Transport.Wire.{SmartBuffer, next_inv, given_inv, deserialize}
use reloadjs.Transport.Content.{read_content}
use reloadjs.Transport.Security.{SignerIdentity, read_block}
use reloadjs.Transport.Signing.{
  Crypto, Message, single_id_identity, signed_bytes, below, check_signature, verify, accepted,
  judge, receive,
}

-- Two texts of which none is before the other are the same.
pub below-neither : (s t : Text) → below s t ≡ false → below t s ≡ false → s ≡ t
unfolding below
below-neither [] [] h k = refl
below-neither [] (y ∷ t) h k = cc
below-neither (x ∷ s) [] h k = cc
below-neither (x ∷ s) (y ∷ t) h k = ground (arith, below-neither s t)

pub below_refl : (s : Text) → below s s ≡ false
unfolding below
below_refl [] = refl
below_refl (x ∷ s) = ground (arith, below_refl s)

-- A successful check of the signature over these bytes of the content.
pub record IsChecked (b : SmartBuffer) (crypto : Crypto) (sequence : Text) (m : Message)
    (content : List ℕ) : Type 0 where
  pub same_sequence : m.header.configuration_sequence ≡ sequence
  pub certificate : Text
  pub identity : SignerIdentity
  pub key : Text
  pub first : head? m.block.certificates ≡ some certificate
  pub of_certificate : crypto.public_key certificate ≡ some key
  pub of_signer : single_id_identity crypto certificate ≡ some identity
  pub signed :
      crypto.verify key (signed_bytes b m.header content identity) m.block.signature.digest ≡ true

verify-IsChecked :
    (b : SmartBuffer) (crypto : Crypto) (sequence : Text) (m : Message) (content : List ℕ)
    → verify b crypto sequence m.header content m.block ≡ some true
    → IsChecked b crypto sequence m content
unfolding verify check_signature
verify-IsChecked b crypto sequence m content e =
    let (up, not_old) = rejected (below m.header.configuration_sequence sequence) e in
    let (down, not_new) = rejected (below sequence m.header.configuration_sequence) not_old in
    let (certificate, first, checked) = given_inv (head? m.block.certificates) not_new in
    let (id, has_id, keyed) = given_inv (crypto.certificate_id certificate) checked in
    let (key, of_certificate, identified) = given_inv (crypto.public_key certificate) keyed in
    let (identity, of_signer, signed) =
      given_inv (single_id_identity crypto certificate) identified in
    record {
      same_sequence = below-neither m.header.configuration_sequence sequence up down;
      certificate = certificate;
      identity = identity;
      key = key;
      first = first;
      of_certificate = of_certificate;
      of_signer = of_signer;
      signed = some_inv signed;
    }
  where
    rejected :
        (t : Bool) {o : Option Bool}
        → (if t then some false else o) ≡ some true
        → (t ≡ false) × (o ≡ some true)
    rejected true h = cc
    rejected false h = (refl, h)

-- What the bytes of a message that is accepted hold.
pub record IsAccepted (b : SmartBuffer) (crypto : Crypto) (sequence : Text) (bytes : List ℕ)
    (m : Message) : Type 0 where
  pub start : List ℕ
  pub rest : List ℕ
  pub left : List ℕ
  pub content : List ℕ
  pub behind : List ℕ
  pub header_read : deserialize b bytes ≡ some (m.header, start)
  pub content_read : read_content b start ≡ some (m.content, rest)
  pub block_read : read_block b crypto.hash rest ≡ some (m.block, left)
  pub content_bytes : b.read_buffer (length start - length rest) start ≡ some (content, behind)
  pub checked : IsChecked b crypto sequence m content

judge_inv : (m m' : Message) (t : Bool) → judge m t ≡ accepted m' → (t ≡ true) × (m ≡ m')
unfolding judge
judge_inv m m' true e = (refl, cc e)
judge_inv m m' false e = cc

-- A message is accepted only if its configuration sequence is that of this peer and its first
-- certificate holds a public key with which the signature of the security block is found right: over
-- the overlay and the transaction of the header, the bytes that the content was read from, and the
-- identity of that certificate.
pub receive-IsAccepted :
    (b : SmartBuffer) (crypto : Crypto) (sequence : Text) (bytes : List ℕ) (m : Message)
    → receive b crypto sequence bytes ≡ some (accepted m)
    → IsAccepted b crypto sequence bytes m
unfolding receive
receive-IsAccepted b crypto sequence bytes m e =
    let (h, start, header_read, e1) = next_inv (deserialize b bytes) e in
    let (c, rest, content_read, e2) = next_inv (read_content b start) e1 in
    let (k, left, block_read, e3) = next_inv (read_block b crypto.hash rest) e2 in
    let (content, behind, content_bytes, e4) =
      next_inv (b.read_buffer (length start - length rest) start) e3 in
    let (ok, right, judged) = given_inv (verify b crypto sequence h content k) e4 in
    let (found, whole) =
      judge_inv (record { header = h; content = c; block = k }) m ok (some_inv judged) in
    subst (λ x. IsAccepted b crypto sequence bytes x) whole
      (record {
        start = start;
        rest = rest;
        left = left;
        content = content;
        behind = behind;
        header_read = header_read;
        content_read = content_read;
        block_read = block_read;
        content_bytes = content_bytes;
        checked =
            verify-IsChecked b crypto sequence (record { header = h; content = c; block = k })
              content (right ∙ ap some found);
      })
