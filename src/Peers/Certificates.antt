-- ===== src/Peers/Certificates.antt =====
-- `getCertificate` and `removeCertificate` of Crypto/Keystore.js, for the key that the caller's id is
-- turned into.
use reloadjs.Base.{
  ◌≡◌, refl, List, [], ◌∷◌, Option, none, some, arith, if◌then◌else◌, Text, same, same_iff,
}
use reloadjs.Peers.{store_certificate}

unfoldable pub get_certificate : Text → List (Text × Text) → Option Text
get_certificate key [] = none
get_certificate key ((k, c) ∷ rest) =
    let later = get_certificate key rest in if same k key then some c else later

unfoldable pub remove_certificate : Text → List (Text × Text) → List (Text × Text)
remove_certificate key [] = []
remove_certificate key ((k, c) ∷ rest) =
    let later = remove_certificate key rest in if same k key then later else (k, c) ∷ later

-- The certificate that was stored under a key is the one that is found, and the other keys keep theirs.
pub get_certificate-store_certificate :
    (key other cert : Text) (store : List (Text × Text))
    → get_certificate other (store_certificate key cert store)
      ≡ (if same key other then some cert else get_certificate other store)
unfolding get_certificate store_certificate
get_certificate-store_certificate key other cert [] = refl
get_certificate-store_certificate key other cert ((k, c) ∷ rest) = ground (
  arith,
  get_certificate-store_certificate key other cert rest,
  same_iff k key,
  same_iff k other,
  same_iff key other,
)

-- No certificate is left under a key that was removed.
pub get_certificate-remove_certificate :
    (key : Text) (store : List (Text × Text))
    → get_certificate key (remove_certificate key store) ≡ none
unfolding get_certificate remove_certificate
get_certificate-remove_certificate key [] = refl
get_certificate-remove_certificate key ((k, c) ∷ rest) =
    ground (arith, get_certificate-remove_certificate key rest)
