-- ===== src/Ice.antt =====
-- Transport/ice/ICE.js: the servers that a peer connection is made with, and the addresses of the
-- peer that it finds. The WebRTC library makes the descriptions.
use reloadjs.Base.{
  not, List, [], ◌∷◌, ◌++◌, Option, none, some, map, Text, codes, same, keep, add_all,
}

-- A STUN server, or a TURN server with its user name and password.
pub record Server : Type 0 where
  pub urls : List Text
  pub login : Option (Text × Text)

unfoldable pub stun_server : List Text → Server
stun_server urls = record { urls = urls; login = none }

unfoldable pub turn_server : Text → Server
turn_server ip = record {
  urls = (codes "turn:" ++ (ip ++ codes ":3478")) ∷ [];
  login = some (codes "username", codes "password");
}

-- The two STUN servers of the configuration of the user.
pub record StunServers : Type 0 where
  pub first : Text
  pub second : Text

-- `iceServers` in `getSDPOffer` and in `getSDPAnswer`, for the TURN servers that are known.
unfoldable pub offer_servers : StunServers → List Text → List Server
unfolding stun_server turn_server
offer_servers stun turns = stun_server (stun.first ∷ stun.second ∷ []) ∷ map turn_server turns

unfoldable pub answer_servers : List Text → List Server
unfolding stun_server turn_server
answer_servers turns =
    stun_server (codes "stun:stun.l.google.com:19302" ∷ []) ∷ map turn_server turns

-- A candidate of a description.
pub record IceCandidate : Type 0 where
  pub type : Text
  pub ip : Text

-- A local description when all candidates are gathered: its text, and what the parser of descriptions
-- finds in it.
pub record Description : Type 0 where
  pub sdp : Text
  pub origin : Text
  pub candidates : Option (List IceCandidate)

-- The set of addresses behind an offer; those of relays are left out. Without candidates the loop
-- throws.
unfoldable pub gathered_ips : Description → Option (List Text)
gathered_ips d = elim d.candidates [
  | none ↦ none
  | some found ↦ some (
      add_all (d.origin ∷ [])
        (map (λ c. c.ip) (keep (λ c. not (same c.type (codes "relay"))) found)))
]
