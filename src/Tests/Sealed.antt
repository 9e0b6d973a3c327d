-- ===== src/Tests/Sealed.antt =====
-- Contents, security blocks and messages that are written and read, with stand-ins for the crypto
-- library.
use reloadjs.Base.{
  ℕ, ◌<◌, ◌^◌, ◌≡◌, ◌≢◌, ◌⊎◌, refl, List, [], ◌∷◌, ◌++◌, none, some, arith, Text, codes, same,
  same_refl, take, head?, if◌then◌else◌,
}
use reloadjs.Base.Unique.{length-take-le}
use reloadjs.Transport.Header.{get_type}
use reloadjs.Transport.Wire.{next, IsPlain, fits, header_bytes, deserialize, read_list}
use reloadjs.Transport.Wire.RoundTrip.{read_back}
use reloadjs.Transport.Json.{stringify, quoted, more, escape, parse}
use reloadjs.Transport.Content.{
  built, as_read, Content, update_answer, leave_answer, new_error_response, read_update_answer,
  read_set, write_content, read_content,
}
use reloadjs.Transport.Content.RoundTrip.{read_content-write_content}
use reloadjs.Transport.Content.Failures.{read_content_fails}
use reloadjs.Transport.Content.Relay.{IsCarried, relayed_content}
use reloadjs.Transport.Codes.{get_decoder}
use reloadjs.Transport.Security.{
  hash_code, hash_name, signature_code, signature_name, cert_hash, SecurityBlock, Hash, write_block,
  write_signature, certificate_bytes, identity_bytes, read_block,
}
use reloadjs.Transport.Security.RoundTrip.{IsSoundBlock, hash_again, read_block-write_block}
use reloadjs.Transport.Signing.{
  Crypto, IsCrypto, IsKeyPair, Local, write_message, receive, accepted, dropped, Message, verify,
  judge, check_signature, single_id_identity, signed_bytes, below,
}
use reloadjs.Transport.Signing.Verified.{IsAccepted, receive-IsAccepted}
use reloadjs.Transport.Signing.Accepted.{IsSendable, receive-write_message, receive-other_sequence}
use reloadjs.Tests.Buffer.{octets, octets-IsSmartBuffer, take_string}
use reloadjs.Tests.Data.{upper, lower, local_id, five_left}

-- Each text has one digest by SHA-1, and a signature repeats the key.
abbrev pub one_hash : Hash
one_hash alg t = if same alg (codes "SHA1") then some (codes "ab") else none

abbrev pub toy_crypto : Crypto
toy_crypto = record {
  hash = one_hash;
  sign = λ key bytes. take 20 (key ++ bytes);
  verify = λ key bytes digest. same (take 20 (key ++ bytes)) digest;
  public_key = λ cert. if same cert (codes "cert-7") then some (codes "key-7") else none;
  certificate_id = λ cert. if same cert (codes "cert-7") then some upper else none;
}

abbrev pub me : Local
me = record { certificate = codes "cert-7"; private_key = codes "key-7" }

pub me-IsPlain : IsPlain me.certificate
me-IsPlain = ground arith

pub toy_crypto-IsCrypto : IsCrypto toy_crypto
unfolding same
toy_crypto-IsCrypto = record {
  sha1 = λ t. (codes "ab", refl, ground arith);
  short = λ key bytes. omega (arith, length-take-le 20 (key ++ bytes));
}

pub me-IsKeyPair : IsKeyPair toy_crypto me.private_key me.certificate
unfolding same
me-IsKeyPair = record {
  public_key = codes "key-7";
  of_certificate = refl;
  accepts = λ bytes. same_refl (take 20 (codes "key-7" ++ bytes));
}

pub me_known : toy_crypto.certificate_id me.certificate ≡ some upper
unfolding same
me_known = refl

abbrev tables : Content
tables = update_answer (built (lower ∷ [])) (built (upper ∷ local_id ∷ [])) (codes "12")

abbrev tables_bytes : List ℕ
tables_bytes = 0x14 ∷ codes "[\"1\"]" ++ 0 ∷ codes "[\"7\",\"5\"]" ++ 0 ∷ codes "12" ++ 0 ∷ 9 ∷ []

tables_written : write_content octets tables (9 ∷ []) ≡ some tables_bytes
unfolding write_content stringify quoted more escape
tables_written = refl

read_content-write_content_example :
    read_content octets tables_bytes ≡ some (as_read tables, 9 ∷ [])
read_content-write_content_example =
    read_content-write_content octets octets-IsSmartBuffer tables (9 ∷ []) tables_bytes
      (ground arith) tables_written

read_content_fails_example :
    ((code : ℕ)
      → code < 2 ^ 8
      → get_decoder code ≡ none
      → read_content octets (octets.u8 code ++ 9 ∷ []) ≡ none)
    × ((type : ℕ) (info : Text)
        → write_content octets (new_error_response type info) (9 ∷ []) ≡ none)
    × ((bytes : List ℕ)
        → write_content octets leave_answer (9 ∷ []) ≡ some bytes
        → read_content octets bytes ≡ none)
read_content_fails_example = read_content_fails octets octets-IsSmartBuffer (9 ∷ [])

relayed_content_example :
    (IsCarried tables
      × (next (read_content octets tables_bytes) (write_content octets) ≡ some tables_bytes))
    ⊎ ((¬ IsCarried tables)
        × (next (read_content octets tables_bytes) (write_content octets) ≡ none))
relayed_content_example =
    relayed_content octets octets-IsSmartBuffer tables (9 ∷ []) tables_bytes (ground arith)
      tables_written

abbrev sealed : SecurityBlock
sealed = record {
  certificates = me.certificate ∷ [];
  signature = record {
    identity = cert_hash (codes "SHA1") (codes "cd");
    hash_alg = some (codes "SHA1");
    sign_alg = some (codes "RSA");
    digest = 4 ∷ 200 ∷ [];
  };
}

abbrev sealed_bytes : List ℕ
sealed_bytes = 1 ∷ codes "cert-7" ++ 0 ∷ 2 ∷ 1 ∷ 1 ∷ 2 ∷ codes "cd" ++ 0 ∷ 0 ∷ 2 ∷ 4 ∷ 200 ∷ 9 ∷ []

sealed-IsSoundBlock : IsSoundBlock sealed
unfolding hash_name hash_code signature_name signature_code same
sealed-IsSoundBlock = record {
  plain = (me-IsPlain, tt);
  identity = (refl, ground arith);
  hash_alg = refl;
  sign_alg = refl;
}

sealed_hashed :
    hash_again one_hash sealed.signature.identity ≡ some (cert_hash (codes "SHA1") (codes "ab"))
unfolding hash_again same
sealed_hashed = refl

sealed_written : write_block octets sealed (9 ∷ []) ≡ some sealed_bytes
unfolding write_block write_signature certificate_bytes identity_bytes hash_code signature_code same
sealed_written = refl

read_block-write_block_example :
    read_block octets one_hash sealed_bytes
    ≡ some (
      record sealed {
        signature = record sealed.signature { identity = cert_hash (codes "SHA1") (codes "ab") };
      },
      9 ∷ [],
    )
read_block-write_block_example =
    read_block-write_block octets octets-IsSmartBuffer one_hash sealed
      (cert_hash (codes "SHA1") (codes "ab")) (9 ∷ []) sealed_bytes sealed-IsSoundBlock
      sealed_hashed sealed_written

five_left-IsSendable : IsSendable octets five_left tables
unfolding fits header_bytes
five_left-IsSendable = record {
  fit = refl;
  overlay = ground arith;
  sequence = ground arith;
  via_list = ground arith;
  destination_list = ground arith;
  content = ground arith;
}

tables_alone : write_content octets tables [] ≡ some (take 20 tables_bytes)
unfolding write_content stringify quoted more escape
tables_alone = refl

receive-write_message_example :
    (bytes : List ℕ) × (k : SecurityBlock) × (write_message octets toy_crypto me five_left tables
      ≡ some bytes)
    × (receive octets toy_crypto (codes "1") bytes
        ≡ some (
            accepted (record {
              header = read_back octets five_left;
              content = as_read tables;
              block = k;
            })))
    × (head? k.certificates ≡ some me.certificate)
receive-write_message_example =
    receive-write_message octets octets-IsSmartBuffer toy_crypto toy_crypto-IsCrypto me me-IsPlain
      five_left tables (take 20 tables_bytes) upper tables_alone five_left-IsSendable me-IsKeyPair
      me_known

one_two : codes "1" ≢ codes "2"
one_two e = ground (arith, e)

receive-other_sequence_example :
    (bytes : List ℕ) × (write_message octets toy_crypto me five_left tables ≡ some bytes)
    × (receive octets toy_crypto (codes "2") bytes ≡ some dropped)
receive-other_sequence_example =
    receive-other_sequence octets octets-IsSmartBuffer toy_crypto toy_crypto-IsCrypto me me-IsPlain
      five_left tables (take 20 tables_bytes) (codes "2") tables_alone five_left-IsSendable one_two

-- The bytes of that message, and what is read of them.
abbrev sent : List ℕ
sent = header_bytes octets five_left (
    take 20 tables_bytes
    ++ (1 ∷ codes "cert-7"
        ++ 0 ∷ 2 ∷ 1 ∷ 1 ∷ 2 ∷ codes "ab"
        ++ 0 ∷ 0 ∷ 20 ∷ codes "key-7overlay"
        ++ 0 ∷ 0 ∷ 0 ∷ 0 ∷ 42 ∷ 20 ∷ codes "[\""))

abbrev got : Message
got = record {
  header = read_back octets five_left;
  content = as_read tables;
  block = record {
    certificates = me.certificate ∷ [];
    signature = record {
      identity = cert_hash (codes "SHA1") (codes "ab");
      hash_alg = some (codes "SHA1");
      sign_alg = some (codes "RSA");
      digest = codes "key-7overlay" ++ 0 ∷ 0 ∷ 0 ∷ 0 ∷ 42 ∷ 20 ∷ codes "[\"";
    };
  };
}

got_accepted : receive octets toy_crypto (codes "1") sent ≡ some (accepted got)
unfolding receive verify judge check_signature single_id_identity signed_bytes below same
    deserialize header_bytes read_back read_list read_content get_decoder read_update_answer
    read_set parse read_block identity_bytes hash_code take_string get_type hash_name signature_name
got_accepted = refl

receive-IsAccepted_example : IsAccepted octets toy_crypto (codes "1") sent got
receive-IsAccepted_example = receive-IsAccepted octets toy_crypto (codes "1") sent got got_accepted
