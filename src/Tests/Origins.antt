-- ===== src/Tests/Origins.antt =====
-- The requests for the configuration, the identity of a peer, and an error answer.
use reloadjs.Base.{
  ◌≤◌, ◌≡◌, ◌↔◌, refl, false, [], ◌∷◌, Option, none, some, arith, Text, codes, same, length, head?,
}
use reloadjs.Transport.Header.{node_id, Header}
use reloadjs.Node.{ping_answer, returned}
use reloadjs.Node.Connections.{find_connection, get_connection, remove_connection}
use reloadjs.Router.{send_error}
use reloadjs.Router.Sent.{send_error-removes}
use reloadjs.Config.Elements.{Root}
use reloadjs.Start.{UserConf, Fetch, run, https_chunk, https_end, on_fetch}
use reloadjs.Start.Fetched.{Fetching, started, went_on, over_https, IsSecure, Fetching-IsSecure}
use reloadjs.Identity.{Keys, Forge, IsForge, generate}
use reloadjs.Identity.Own.{certificate_id-generate, certificate_id-given_iff}
use reloadjs.Tests.Data.{upper, small_node, one_broken, five_left, settings}

-- A configuration that comes over HTTPS, where HTTP is not allowed.
abbrev without_http : UserConf
without_http = record { force_local = false; enable_http = some false }

abbrev small_root : Root
small_root = record { attributes = []; children = [] }

abbrev parser : Text → Option Root
parser [] = none
parser (c ∷ cs) = some small_root

abbrev fetched : Fetch
fetched =
    on_fetch parser without_http https_end
      (on_fetch parser without_http (https_chunk (codes "<overlay/>")) (run parser without_http []))

fetched-Fetching : Fetching parser without_http [] fetched
unfolding run on_fetch
fetched-Fetching =
    went_on (went_on started (over_https (https_chunk (codes "<overlay/>")) tt refl refl))
      (over_https https_end tt refl refl)

Fetching-IsSecure_example : IsSecure parser without_http fetched
Fetching-IsSecure_example = Fetching-IsSecure parser without_http fetched-Fetching refl (λ e. cc)

-- A digest that puts two letters in front, and certificates that are their own id.
abbrev padded : Text → Text
padded t = b'a' ∷ b'b' ∷ t

abbrev plain_forge : Forge
plain_forge = record {
  sha1_hex = padded;
  certificate = λ keys id. id;
  certificate_id = λ certificate. some certificate;
}

plain_forge-IsForge : IsForge plain_forge
plain_forge-IsForge = record { id_of = λ keys id. refl }

abbrev keys : Keys
keys = record { public_der = codes "der"; public_pem = codes "pem"; private_pem = codes "private" }

certificate_id-generate_example :
    (id : Text) × (head? (generate plain_forge keys 2 (some 5) none).node_ids ≡ some id)
    × (plain_forge.certificate_id (generate plain_forge keys 2 (some 5) none).certificate ≡ some id)
    × (length id ≡ 2)
certificate_id-generate_example =
    certificate_id-generate plain_forge keys 2 (some 5) plain_forge-IsForge (λ t. omega arith)

certificate_id-given_iff_example :
    ((generate plain_forge keys 2 none (some (codes "abc"))).node_ids ≡ codes "abc" ∷ [])
    × ((plain_forge.certificate_id
            (generate plain_forge keys 2 none (some (codes "abc"))).certificate
          ≡ some (codes "abc"))
        ↔ (length (codes "abc") ≤ 2))
certificate_id-given_iff_example =
    certificate_id-given_iff plain_forge keys 2 none (codes "abc") plain_forge-IsForge (λ e. cc)

-- A request that came from `upper`, which is connected by socket 2.
abbrev from_upper : Header
from_upper = record five_left { via_list = node_id upper ∷ [] }

upper_link : get_connection small_node upper ≡ some 2
unfolding get_connection find_connection same
upper_link = refl

send_error-removes_example :
    send_error one_broken settings from_upper ping_answer small_node
    ≡ (returned tt, remove_connection (some 2) small_node)
send_error-removes_example =
    send_error-removes one_broken settings from_upper ping_answer (node_id upper) [] 2 small_node
      refl (λ e. cc) upper_link
