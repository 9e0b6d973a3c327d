-- ===== src/Transport/Signing/Accepted.antt =====
-- A message of Transport/messages/message.js that one peer writes is accepted by another.
use reloadjs.Base.{
  ℕ, ◌≡◌, ◌≢◌, refl, ap, ◌∙◌, true, false, inl, inr, List, [], ◌∷◌, ◌++◌, some, arith, Text, codes,
  Bool-cases, length-append, head?, same,
}
use reloadjs.Transport.Header.{Header}
use reloadjs.Transport.Wire.{
  SmartBuffer, IsSmartBuffer, IsPlain, given, given-some, checked, fits, header_bytes, serialize,
  next-some,
}
use reloadjs.Transport.Wire.Lists.{ArePlain}
use reloadjs.Transport.Wire.RoundTrip.{read_back, deserialize-serialize}
use reloadjs.Transport.Content.{Content, write_content, as_read}
use reloadjs.Transport.Content.Behind.{write_content-append}
use reloadjs.Transport.Content.RoundTrip.{IsSound, read_content-write_content}
use reloadjs.Transport.Security.{
  hash_name, hash_code, signature_name, signature_code, SignerIdentity, cert_hash, SecurityBlock,
  write_block,
}
use reloadjs.Transport.Security.RoundTrip.{
  IsSoundBlock, hash_again, read_block-write_block, write_block_succeeds,
}
use reloadjs.Transport.Signing.{
  Crypto, IsKeyPair, IsCrypto, Local, single_id_identity, signed_bytes, sign_with,
  compute_sec_block, write_message, below, check_signature, verify, dropped, accepted, judge,
  receive,
}
use reloadjs.Transport.Signing.Verified.{below_refl, below-neither}

-- The numbers of the header are in range, its texts are ASCII, and so are those of a content that has
-- a decoder.
pub record IsSendable (b : SmartBuffer) (h : Header) (c : Content) : Type 0 where
  pub fit : fits b h ≡ true
  pub overlay : IsPlain h.overlay
  pub sequence : IsPlain h.configuration_sequence
  pub via_list : ArePlain h.via_list
  pub destination_list : ArePlain h.destination_list
  pub content : IsSound c

-- The parts of a message that this peer writes; `again` is the identity as it is read.
record IsWritten (b : SmartBuffer) (crypto : Crypto) (me : Local) (h : Header) (c : Content)
    : Type 0 where
  content : List ℕ
  identity : SignerIdentity
  again : SignerIdentity
  tail : List ℕ
  of_content : write_content b c [] ≡ some content
  of_identity : single_id_identity crypto me.certificate ≡ some identity
  of_again : hash_again crypto.hash identity ≡ some again
  of_block :
      write_block b
        (record {
          certificates = me.certificate ∷ [];
          signature = sign_with b crypto me h content identity;
        })
        []
      ≡ some tail
  sound : IsSoundBlock (record {
    certificates = me.certificate ∷ [];
    signature = sign_with b crypto me h content identity;
  })

module _ (b : SmartBuffer) (law : IsSmartBuffer b) (crypto : Crypto) (works : IsCrypto crypto)
    (me : Local) (plain : IsPlain me.certificate) (h : Header) (c : Content) where
  parts : (content : List ℕ) → write_content b c [] ≡ some content → IsWritten b crypto me h c
  unfolding single_id_identity hash_again sign_with hash_name hash_code same signature_name
      signature_code
  parts content e =
      let (hash, hashed, hash_plain) = works.sha1 me.certificate in
      let (twice, hashed_again, twice_plain) = works.sha1 hash in
      let (tail, of_block) =
        write_block_succeeds b
          (record {
            certificates = me.certificate ∷ [];
            signature = sign_with b crypto me h content (cert_hash (codes "SHA1") hash);
          })
          [] (omega arith) (works.short me.private_key _) in
      record {
        content = content;
        identity = cert_hash (codes "SHA1") hash;
        again = cert_hash (codes "SHA1") twice;
        tail = tail;
        of_content = e;
        of_identity = given-some _ hashed;
        of_again = given-some _ hashed_again;
        of_block = of_block;
        sound = record {
          plain = (plain, tt);
          identity = (refl, hash_plain);
          hash_alg = refl;
          sign_alg = refl;
        };
      }

  module _ (w : IsWritten b crypto me h c) where
    abbrev block : SecurityBlock
    block = record {
      certificates = me.certificate ∷ [];
      signature = sign_with b crypto me h w.content w.identity;
    }

    abbrev block_back : SecurityBlock
    block_back = record block { signature = record block.signature { identity = w.again } }

    written :
        fits b h ≡ true
        → write_message b crypto me h c ≡ some (header_bytes b h (w.content ++ w.tail))
    unfolding write_message compute_sec_block serialize
    written fit =
        given-some _ w.of_content
        ∙ given-some _ (given-some _ w.of_identity)
        ∙ given-some _ w.of_block
        ∙ given-some _ (write_content-append b c w.content w.tail w.of_content)
        ∙ checked _ fit

    judged :
        (sequence : Text)
        → IsSendable b h c
        → receive b crypto sequence (header_bytes b h (w.content ++ w.tail))
          ≡ given (verify b crypto sequence (read_back b h) w.content block_back) (λ ok.
            some (
              judge
                (record { header = read_back b h; content = as_read c; block = block_back })
                ok))
    unfolding receive serialize sign_with
    judged sequence s =
        next-some _ (
          deserialize-serialize b law h (w.content ++ w.tail) _ (checked _ s.fit) s.overlay
            s.sequence s.via_list s.destination_list)
        ∙ next-some _ (
            read_content-write_content b law c w.tail (w.content ++ w.tail) s.content
              (write_content-append b c w.content w.tail w.of_content))
        ∙ next-some _ (
            read_block-write_block b law crypto.hash block w.again [] w.tail w.sound w.of_again
              w.of_block)
        ∙ next-some _ (
            ap (λ (n : ℕ). b.read_buffer n (w.content ++ w.tail))
              (omega (arith, length-append w.content w.tail))
            ∙ law.buffer_back w.content w.tail)

    checks :
        IsKeyPair crypto me.private_key me.certificate
        → (id : Text) → crypto.certificate_id me.certificate ≡ some id
        → verify b crypto h.configuration_sequence (read_back b h) w.content block_back ≡ some true
    unfolding verify check_signature read_back sign_with signed_bytes
    checks pair id has_id = rw (below_refl h.configuration_sequence) (
        given-some _ has_id
        ∙ given-some _ pair.of_certificate
        ∙ given-some _ w.of_identity
        ∙ ap some (pair.accepts _))

    rejects :
        (sequence : Text)
        → h.configuration_sequence ≢ sequence
        → verify b crypto sequence (read_back b h) w.content block_back ≡ some false
    unfolding verify read_back
    rejects sequence other = elim (Bool-cases (below h.configuration_sequence sequence)) [
      | inl old ↦ rw old refl
      | inr up ↦ elim (Bool-cases (below sequence h.configuration_sequence)) [
        | inl new ↦ rw (up, new) refl
        | inr down ↦ absurd (other (below-neither h.configuration_sequence sequence up down))
      ]
    ]

  -- Over a buffer library that reads back what it wrote and a crypto library with SHA-1: a message
  -- whose content is written without an exception is written as a whole, and a peer with the sequence
  -- of its header accepts it, with the header as its reader fills it in, the same content as the reader stores it, and the
  -- certificate of the sender, whose key pair checks what it signs and whose certificate has an id. Both
  -- texts and certificate are ASCII, and the content has a decoder.
  pub receive-write_message :
      (content id : List ℕ)
      → write_content b c [] ≡ some content
      → IsSendable b h c
      → IsKeyPair crypto me.private_key me.certificate
      → crypto.certificate_id me.certificate ≡ some id
      → (bytes : List ℕ) × (k : SecurityBlock) × (write_message b crypto me h c ≡ some bytes)
        × (receive b crypto h.configuration_sequence bytes
            ≡ some (accepted (record { header = read_back b h; content = as_read c; block = k })))
        × (head? k.certificates ≡ some me.certificate)
  unfolding judge
  receive-write_message content id e s pair has_id =
      let w = parts content e in
      (
        header_bytes b h (w.content ++ w.tail),
        block_back w,
        written w s.fit,
        judged w h.configuration_sequence s ∙ given-some _ (checks w pair id has_id),
        refl,
      )

  -- Over the same libraries: a message whose content is written without an exception, whose texts and
  -- certificate are ASCII and whose content has a decoder, is written as a whole, and a peer with another
  -- sequence than that of its header drops it.
  pub receive-other_sequence :
      (content sequence : List ℕ)
      → write_content b c [] ≡ some content
      → IsSendable b h c
      → h.configuration_sequence ≢ sequence
      → (bytes : List ℕ) × (write_message b crypto me h c ≡ some bytes)
        × (receive b crypto sequence bytes ≡ some dropped)
  unfolding judge
  receive-other_sequence content sequence e s other =
      let w = parts content e in
      (
        header_bytes b h (w.content ++ w.tail),
        written w s.fit,
        judged w sequence s ∙ given-some _ (rejects w sequence other),
      )
