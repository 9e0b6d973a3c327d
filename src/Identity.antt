-- ===== src/Identity.antt =====
-- The identity of a peer: `generateSelfSignedCertificate` and `getNodeIdFromCertificate` of
-- Crypto/X509Utils.js, and the part of Core/instance.js that reads it from disk or makes it. The
-- keys and certificates of node-forge are a parameter.
pub mod Own
use reloadjs.Base.{
  ℕ, zero, suc, ◌+◌, ◌-◌, ◌/◌, ◌%◌, ◌≡◌, ltb, Bool, true, false, not, ◌&&◌, List, [], ◌∷◌, ◌++◌,
  Option, none, some, if◌then◌else◌, length, take, Text, same,
}

-- A key pair in the texts that are made of it: the public key in DER and in PEM, and the private key.
pub record Keys : Type 0 where
  pub public_der : Text
  pub public_pem : Text
  pub private_pem : Text

-- The hexadecimal digest of all that a SHA-1 object was updated with; a certificate for an id as its
-- only extension, signed with its own key, in PEM; and the value of the first extension, or `none`
-- for an exception.
pub record Forge : Type 0 where
  pub sha1_hex : Text → Text
  pub certificate : Keys → Text → Text
  pub certificate_id : Text → Option Text

-- A certificate gives back the extension that it was made with.
pub record IsForge (forge : Forge) : Type 0 where
  pub id_of : (keys : Keys) (id : Text) → forge.certificate_id (forge.certificate keys id) ≡ some id

-- The text of a number, with a round for each digit.
unfoldable pub decimal_from : ℕ → ℕ → Text
decimal_from zero n = []
decimal_from (suc rounds) n =
    let rest = decimal_from rounds (n / 10) in
    (if ltb n 10 then [] else rest) ++ (b'0' + n % 10) ∷ []

unfoldable pub decimal : ℕ → Text
unfolding decimal_from
decimal n = decimal_from (suc n) n

unfoldable pub zeros : ℕ → Text
zeros zero = []
zeros (suc n) = b'0' ∷ zeros n

-- `padEnd(4, '0')`.
unfoldable pub pad_end : Text → Text
unfolding zeros
pad_end t = t ++ zeros (4 - length t)

-- The loop over the node ids from one index on: the same object is updated in each round, behind what
-- it was updated with.
unfoldable pub node_ids : Forge → Keys → ℕ → Text → ℕ → ℕ → List Text
unfolding decimal pad_end
node_ids forge keys len updated i zero = []
node_ids forge keys len updated i (suc rounds) =
    let updated' : Text = updated ++ (pad_end (decimal i) ++ keys.public_der) in
    take len (forge.sha1_hex updated') ∷ node_ids forge keys len updated' (suc i) rounds

-- The ids, for the number of ids in the configuration of the client and the id of the arguments, which
-- counts if it is not empty.
unfoldable pub is_given : Option Text → Bool
is_given none = false
is_given (some id) = not (same id [])

unfoldable pub is_multiple : Option ℕ → Bool
is_multiple none = false
is_multiple (some count) = ltb 1 count

unfoldable pub single_id : Forge → Keys → ℕ → Option Text → Text
single_id forge keys len none = take len (forge.sha1_hex keys.public_pem)
single_id forge keys len (some id) =
    if same id [] then take len (forge.sha1_hex keys.public_pem) else id

unfoldable pub all_ids : Forge → Keys → ℕ → Option ℕ → Option Text → List Text
unfolding node_ids single_id is_given is_multiple
all_ids forge keys len none given = single_id forge keys len given ∷ []
all_ids forge keys len (some count) given =
    if not (is_given given) && is_multiple (some count)
    then node_ids forge keys len [] 0 count
    else single_id forge keys len given ∷ []

-- `nodeID`, to which each id is appended.
unfoldable pub joined_ids : List Text → Text
joined_ids [] = []
joined_ids (id ∷ ids) = id ++ joined_ids ids

-- What is saved on disk; `nodeIDs[0]` is the id of the peer.
pub record Identity : Type 0 where
  pub certificate : Text
  pub node_ids : List Text
  pub private_key : Text
  pub public_key : Text

-- `generateSelfSignedCertificate`, for keys that are drawn and the length of a node id.
unfoldable pub generate : Forge → Keys → ℕ → Option ℕ → Option Text → Identity
unfolding all_ids joined_ids
generate forge keys len count given =
    let ids = all_ids forge keys len count given in
    record {
      certificate = forge.certificate keys (take len (joined_ids ids));
      node_ids = ids;
      private_key = keys.private_pem;
      public_key = keys.public_pem;
    }

-- The identity of the file, or one that is made and saved there.
unfoldable pub saved_identity :
    Forge → Keys → ℕ → Option ℕ → Option Text → Option Identity → Identity
unfolding generate
saved_identity forge keys len count given none = generate forge keys len count given
saved_identity forge keys len count given (some saved) = saved

unfoldable pub save_identity :
    Forge → Keys → ℕ → Option ℕ → Option Text → Option Identity → Option Identity
unfolding saved_identity
save_identity forge keys len count given file =
    some (saved_identity forge keys len count given file)
