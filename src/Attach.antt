-- ===== src/Attach.antt =====
-- Services/AttachService.js with the callbacks that it gives to Transport/ice/ICE.js: from the call of
-- `attachTo` to the description of the other peer.
pub mod Pending
pub mod Once
pub mod Callbacks
pub mod Round
use reloadjs.Base.{ℕ, ◌==◌, Bool, List, [], ◌∷◌, ◌++◌, Option, none, some, if◌then◌else◌, Text}
use reloadjs.Transport.Header.{RoutableId, Header, Settings, new_message, new_response_message}
use reloadjs.Node.{Node, attach_answer, Sockets, Exec, Outcome, returned, thrown, ◌>>◌}
use reloadjs.Dispatch.{has_request, handle_attach_request, process_attach_answer, send_request}
use reloadjs.Router.{send_answer}
use reloadjs.Ice.{Server, StunServers, offer_servers, answer_servers, Description, gathered_ips}

-- A call of `attachTo`, with the peer connection of its offer.
pub record Offer : Type 0 where
  pub pc : ℕ
  pub servers : List Server
  pub socket : ℕ
  pub dests : List RoutableId
  pub asks_update : Bool

-- A call of `sendAnswer`, with the peer connection of the answer and the description of the request.
pub record Reply : Type 0 where
  pub pc : ℕ
  pub servers : List Server
  pub remote : Text
  pub header : Header

-- A call of `ICE.connect`, for the answer to the request of a transaction.
pub record Connect : Type 0 where
  pub transaction : ℕ
  pub pc : ℕ
  pub sdp : Text

-- An entry of `pcs`: the peer connection of a transaction.
pub record Pc : Type 0 where
  pub transaction : ℕ
  pub pc : ℕ

-- The peer with what the service keeps: `turns` and `ips` are globals. The set `answeredrequests`
-- stays empty.
pub record Service : Type 0 where
  pub node : Node
  pub offers : List Offer
  pub answers : List Reply
  pub pcs : List Pc
  pub connects : List Connect
  pub turns : List Text
  pub ips : List Text

-- `attachTo`; the peer connection is new.
unfoldable pub attach_to : StunServers → ℕ → ℕ → List RoutableId → Bool → Service → Service
unfolding offer_servers
attach_to stun pc socket dests send_update s = record s {
  offers =
      s.offers
      ++ record {
        pc = pc;
        servers = offer_servers stun s.turns;
        socket = socket;
        dests = dests;
        asks_update = send_update;
      }
        ∷ [];
}

unfoldable pub find_offer : ℕ → List Offer → Option Offer
find_offer pc [] = none
find_offer pc (o ∷ os) = if o.pc == pc then some o else find_offer pc os

-- `pcs[transaction]`, and its assignment.
unfoldable pub find_pc : ℕ → List Pc → Option ℕ
find_pc t [] = none
find_pc t (p ∷ ps) = if p.transaction == t then some p.pc else find_pc t ps

unfoldable pub set_pc : ℕ → ℕ → List Pc → List Pc
set_pc t pc [] = record { transaction = t; pc = pc } ∷ []
set_pc t pc (p ∷ ps) = if p.transaction == t then record p { pc = pc } ∷ ps else p ∷ set_pc t pc ps

-- The outcome of a handler that gives back something.
unfoldable pub ended {ℓ} : {A : Type ℓ} → Outcome A → Outcome (Unit {0})
ended (returned a) = returned tt
ended thrown = thrown

-- `onCandidatesGathered` with `sendRequest`, for a drawn transaction number.
unfoldable pub send_offer : Sockets → Settings → ℕ → Text → Offer → Exec Service Unit
unfolding ended set_pc
send_offer env conf t sdp o s = elim (new_message conf s.node.local t o.dests) [
  | none ↦ (thrown, s)
  | some h ↦
      let (r, n) =
        send_request env o.socket h.transaction sdp o.asks_update h.destination_list s.node in
      (ended r, record s { node = n; pcs = set_pc h.transaction o.pc s.pcs })
]

-- What follows the callback in `onicegatheringstatechange`.
unfoldable pub keep_ips : Description → Exec Service Unit
unfolding gathered_ips
keep_ips d s = elim (gathered_ips d) [
  | none ↦ (thrown, s)
  | some ips ↦ (returned tt, record s { ips = ips })
]

-- All candidates of an offer are gathered.
unfoldable pub offer_complete : Sockets → Settings → ℕ → ℕ → Description → Exec Service Unit
unfolding find_offer send_offer keep_ips
offer_complete env conf t pc d s = elim (find_offer pc s.offers) [
  | none ↦ (returned tt, s)
  | some o ↦ (send_offer env conf t d.sdp o >> keep_ips d) s
]

-- `sendAnswer`; the peer connection is new.
unfoldable pub start_answer : ℕ → Header → Text → Service → Service
unfolding answer_servers has_request
start_answer pc h remote s =
    if has_request h.transaction s.node.pending_requests then s else record s {
      answers =
          s.answers
          ++ record { pc = pc; servers = answer_servers s.turns; remote = remote; header = h } ∷ [];
    }

unfoldable pub answer_after : ℕ → Header → Text → Outcome (Unit {0}) → Exec Service Unit
unfolding start_answer
answer_after pc h remote thrown s = (thrown, s)
answer_after pc h remote (returned u) s = (returned tt, start_answer pc h remote s)

-- `handleAttachRequest`.
unfoldable pub handle_request : ℕ → Header → Bool → Text → Exec Service Unit
unfolding answer_after handle_attach_request
handle_request pc h send_update remote s =
    let (r, n) = handle_attach_request h send_update s.node in
    answer_after pc h remote r (record s { node = n })

unfoldable pub find_answer : ℕ → List Reply → Option Reply
find_answer pc [] = none
find_answer pc (a ∷ as') = if a.pc == pc then some a else find_answer pc as'

unfoldable pub set_header : ℕ → Header → List Reply → List Reply
set_header pc h [] = []
set_header pc h (a ∷ as') =
    (if a.pc == pc then record a { header = h } else a) ∷ set_header pc h as'

-- `onAnswerComputed`. The header of the request becomes the one of the answer.
unfoldable pub answer_complete : Sockets → Settings → ℕ → Text → Exec Service Unit
unfolding find_answer set_header send_answer
answer_complete env conf pc sdp s = elim (find_answer pc s.answers) [
  | none ↦ (returned tt, s)
  | some a ↦
      let (r, n) = send_answer env conf a.header (attach_answer sdp) s.node in
      (
        r,
        record s {
          node = n;
          answers = set_header pc (new_response_message conf s.node.local a.header) s.answers;
        },
      )
]

-- `processAttachAnswer`; without a peer connection `ICE.connect` throws.
unfoldable pub process_answer : ℕ → Text → Exec Service Unit
unfolding find_pc has_request process_attach_answer
process_answer t sdp s =
    if has_request t s.node.pending_requests
    then elim (find_pc t s.pcs) [
      | none ↦ (thrown, s)
      | some pc ↦ (
        returned tt,
        record s {
          node = process_attach_answer t s.node;
          connects = s.connects ++ record { transaction = t; pc = pc; sdp = sdp } ∷ [];
        },
      )
    ]
    else (returned tt, s)
