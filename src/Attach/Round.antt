-- ===== src/Attach/Round.antt =====
-- An attach request and its answer, between two peers.
use reloadjs.Base.{
  ℕ, ◌≡◌, ◌≢◌, refl, ap, Bool, true, false, List, [], ◌∷◌, ◌++◌, reverse, none, some, arith, head?,
  Text, Option-cases, inl, inr,
}
use reloadjs.Transport.Header.{RoutableId, id_text, Header, Settings, new_response_message}
use reloadjs.Node.{Node, Sockets, Outcome, returned, write, attach_request, attach_answer}
use reloadjs.Node.Connections.{get_connection, send_message, send}
use reloadjs.Node.Keeps.{Keeps-after}
use reloadjs.Dispatch.{has_request, handle_attach_request, answer_attach, send_request}
use reloadjs.Router.{send_answer}
use reloadjs.Router.Sent.{route_connected}
use reloadjs.Ice.{Description, gathered_ips, answer_servers}
use reloadjs.Attach.{
  Offer, Reply, Service, find_offer, find_pc, send_offer, keep_ips, offer_complete, start_answer,
  answer_after, handle_request, find_answer, answer_complete, process_answer,
}
use reloadjs.Attach.Pending.{find_pc-set_pc, pending-send_request, pending-process_attach_answer}
use reloadjs.Attach.Callbacks.{new_message-cases}

-- The answer to a request that was sent: what is left of it is the connection.
process_answer_lem :
    (t pc : ℕ) (sdp : Text) (s : Service)
    → has_request t s.node.pending_requests ≡ true
    → find_pc t s.pcs ≡ some pc
    → ((process_answer t sdp s).1.connects
        ≡ s.connects ++ record { transaction = t; pc = pc; sdp = sdp } ∷ [])
      × (has_request t (process_answer t sdp s).1.node.pending_requests ≡ false)
unfolding process_answer
process_answer_lem t pc sdp s own found =
    rw (own, found, process_answer)
      (refl, ground (arith, pending-process_attach_answer t t s.node own))

-- What an offer leaves for its answer.
abbrev pub IsSent : ℕ → Text → Offer → Service → Service → Type 0
IsSent t sdp o s s' =
    (s'.node.done ≡ s.node.done ++ write o.socket (attach_request sdp o.asks_update) o.dests ∷ [])
    × (has_request t s'.node.pending_requests ≡ true)
    × (find_pc t s'.pcs ≡ some o.pc)
    × (s'.connects ≡ s.connects)

send_offer-IsSent :
    (env : Sockets) (conf : Settings) (t : ℕ) (sdp : Text) (o : Offer) (s : Service)
    → o.dests ≢ []
    → env.writable o.socket ≡ true
    → IsSent t sdp o s (send_offer env conf t sdp o s).1
send_offer-IsSent env conf t sdp o s proper ok =
    elim (new_message-cases conf s.node.local t o.dests) [
      | inl (_, empty) ↦ absurd (proper empty)
      | inr (h, made, number, dests) ↦
          unfold send_offer in
          rw (made, send_offer)
            (
              unfold send_request send_message send in rw (ok, dests) refl,
              ground (
                arith,
                pending-send_request env o.socket h.transaction sdp o.asks_update h.destination_list
                    s.node t,
                number,
              ),
              ground (arith, find_pc-set_pc t h.transaction o.pc s.pcs, number),
              refl,
            )
    ]

keep_ips-IsSent :
    (t : ℕ) (sdp : Text) (o : Offer) (s : Service) (d : Description) (s' : Service)
    → IsSent t sdp o s s'
    → IsSent t sdp o s (keep_ips d s').1
keep_ips-IsSent t sdp o s d s' k = elim (Option-cases (gathered_ips d)) [
  | inl missing ↦ unfold keep_ips in rw (missing, keep_ips) k
  | inr (ips, found) ↦ unfold keep_ips in rw (found, keep_ips) k
]

pub offer_complete-IsSent :
    (env : Sockets) (conf : Settings) (t pc : ℕ) (d : Description) (o : Offer) (s : Service)
    → find_offer pc s.offers ≡ some o
    → o.dests ≢ []
    → env.writable o.socket ≡ true
    → IsSent t d.sdp o s (offer_complete env conf t pc d s).1
offer_complete-IsSent env conf t pc d o s found proper ok =
    unfold offer_complete in
    rw (found, offer_complete)
      (Keeps-after {P = IsSent t d.sdp o s} (send_offer env conf t d.sdp o) (λ _. keep_ips d) s
        (send_offer-IsSent env conf t d.sdp o s proper ok)
        (λ _. record { at = keep_ips-IsSent t d.sdp o s d }))

find_answer-append :
    (a : Reply) (as' : List Reply)
    → find_answer a.pc as' ≡ none
    → find_answer a.pc (as' ++ a ∷ []) ≡ some a
unfolding find_answer
find_answer-append a [] h = ground arith
find_answer-append a (b ∷ bs) h = ground (arith, find_answer-append a bs)

-- A request that was handled, and waits for the description of its answer.
abbrev IsAsked : ℕ → Header → Service → Service → Type 0
IsAsked pc h s s' =
    (a : Reply) × (find_answer pc s'.answers ≡ some a)
    × (a.header ≡ h)
    × (s'.node.connections ≡ s.node.connections)

handle_attach_request_lem :
    (h : Header) (update : Bool) (first : RoutableId) (n : Node)
    → head? h.via_list ≡ some first
    → has_request h.transaction n.pending_requests ≡ false
    → (n' : Node) × (handle_attach_request h update n ≡ (returned tt, n'))
      × (n'.pending_requests ≡ n.pending_requests)
      × (n'.connections ≡ n.connections)
unfolding handle_attach_request answer_attach
handle_attach_request_lem h false first n come own =
    ((handle_attach_request h false n).1, rw own refl, rw own refl, rw own refl)
handle_attach_request_lem h true first n come own = (
  (handle_attach_request h true n).1,
  rw (come, own, handle_attach_request) refl,
  rw (come, own, handle_attach_request) refl,
  rw (come, own, handle_attach_request) refl,
)

abbrev waiting : ℕ → Header → Text → Service → Reply
waiting pc h remote s = record {
  pc = pc;
  servers = answer_servers s.turns;
  remote = remote;
  header = h;
}

handle_request-IsAsked :
    (pc : ℕ) (h : Header) (update : Bool) (remote : Text) (first : RoutableId) (s : Service)
    → head? h.via_list ≡ some first
    → has_request h.transaction s.node.pending_requests ≡ false
    → find_answer pc s.answers ≡ none
    → IsAsked pc h s (handle_request pc h update remote s).1
handle_request-IsAsked pc h update remote first s come own fresh =
    let (n, handled, pending, links) = handle_attach_request_lem h update first s.node come own in
    unfold handle_request answer_after start_answer in
    rw (handled, pending, own)
      (
        waiting pc h remote s,
        find_answer-append (waiting pc h remote s) s.answers fresh,
        refl,
        links,
      )

-- The description of an answer is sent to the node that the request came from.
answer_complete_lem :
    (env : Sockets) (conf : Settings) (pc : ℕ) (sdp : Text) (h : Header) (hop : RoutableId)
    (path : List RoutableId) (socket : ℕ) (s s' : Service)
    → IsAsked pc h s s'
    → reverse h.via_list ≡ hop ∷ path
    → id_text hop ≢ []
    → get_connection s.node (id_text hop) ≡ some socket
    → env.writable socket ≡ true
    → (answer_complete env conf pc sdp s').1.node.done
      ≡ s'.node.done ++ write socket (attach_answer sdp) (hop ∷ path) ∷ []
answer_complete_lem env conf pc sdp h hop path socket s s' (a, found, header, links) back proper
      near ok =
    unfold answer_complete in
    rw (found, answer_complete)
      (unfold send_answer new_response_message in
        rw (header, back)
          (ap (λ (x : Outcome (Unit {0}) × Node). x.1.done)
            (route_connected env (attach_answer sdp) hop path socket s'.node proper
              (unfold get_connection in rw links near) ok)))

-- One peer has called `attachTo`, and its socket can be written to. When its candidates are gathered,
-- it writes the attach request there. Another peer, which has no pending request of the same
-- transaction, handles the request, over whatever path it came; if it is connected to the end of its
-- via list, it writes the description of its answer there, to the path backwards, and with the
-- transaction of the request. Then the first peer gives this description to the peer connection of
-- its offer, and the request is no longer pending.
pub attach_round :
    (env env' : Sockets) (conf conf' : Settings) (t pc pc' : ℕ) (d : Description) (sdp : Text)
    (o : Offer) (h : Header) (first hop : RoutableId) (path : List RoutableId) (socket : ℕ)
    (s s' : Service)
    → find_offer pc s.offers ≡ some o
    → o.dests ≢ []
    → env.writable o.socket ≡ true
    → h.transaction ≡ t
    → head? h.via_list ≡ some first
    → reverse h.via_list ≡ hop ∷ path
    → has_request t s'.node.pending_requests ≡ false
    → find_answer pc' s'.answers ≡ none
    → id_text hop ≢ []
    → get_connection s'.node (id_text hop) ≡ some socket
    → env'.writable socket ≡ true
    → let sent = (offer_complete env conf t pc d s).1 in
      let asked = (handle_request pc' h o.asks_update d.sdp s').1 in
      let answered = (answer_complete env' conf' pc' sdp asked).1 in
      let reply = new_response_message conf' s'.node.local h in
      let finished = (process_answer reply.transaction sdp sent).1 in
      (sent.node.done
        ≡ s.node.done ++ write o.socket (attach_request d.sdp o.asks_update) o.dests ∷ [])
      × (answered.node.done ≡ asked.node.done ++ write socket (attach_answer sdp) (hop ∷ path) ∷ [])
      × (reply.destination_list ≡ hop ∷ path)
      × (finished.connects ≡ s.connects ++ record { transaction = t; pc = o.pc; sdp = sdp } ∷ [])
      × (has_request t finished.node.pending_requests ≡ false)
attach_round env env' conf conf' t pc pc' d sdp o h first hop path socket s s' found proper ok
      number come back other fresh named near ok' =
    let (written, pending, matched, same_connects) =
      offer_complete-IsSent env conf t pc d o s found proper ok in
    let (connects, done) =
      process_answer_lem t o.pc sdp (offer_complete env conf t pc d s).1 pending matched in
    (
      written,
      answer_complete_lem env' conf' pc' sdp h hop path socket s'
          (handle_request pc' h o.asks_update d.sdp s').1
          (handle_request-IsAsked pc' h o.asks_update d.sdp first s' come (rw number other) fresh)
          back named near ok',
      unfold new_response_message in back,
      unfold new_response_message in rw (number, connects, same_connects) refl,
      unfold new_response_message in rw number done,
    )
