-- ===== src/Attach/Callbacks.antt =====
-- The callbacks of the attach service in any order.
use reloadjs.Base.{
  ℕ, ◌≡◌, ◌⊎◌, refl, Bool, List, [], ◌∷◌, none, some, Text, Bool-cases, Option-cases, inl, inr,
}
use reloadjs.Transport.Header.{RoutableId, Header, Settings, new_message}
use reloadjs.Node.{Node, Sockets, Outcome, returned, thrown, attach_answer}
use reloadjs.Node.Keeps.{Keeps-after}
use reloadjs.Dispatch.{has_request, handle_attach_request}
use reloadjs.Router.Kept.{send_answer-Keeps}
use reloadjs.Ice.{StunServers, Description, gathered_ips}
use reloadjs.Attach.{
  Offer, Service, attach_to, find_offer, find_pc, send_offer, keep_ips, offer_complete,
  start_answer, answer_after, handle_request, find_answer, answer_complete, process_answer,
}
use reloadjs.Attach.Pending.{
  pending-Stable, pending-send_request, pending-handle_attach_request,
  pending-process_attach_answer,
}
use reloadjs.Attach.Once.{IsOnce, Once-offer, Once-answer}

-- One callback: a call of `attachTo`, an offer with all candidates and a number that was not drawn
-- before, an attach request, the description of its answer, an attach answer, or any other callback,
-- which leaves the pending requests alone.
pub data Step (s : Service) : Service → Type 0 where
  asked :
      (stun : StunServers) (pc socket : ℕ) (dests : List RoutableId) (b : Bool)
      → Step s (attach_to stun pc socket dests b s)
  offered :
      (env : Sockets) (conf : Settings) (t pc : ℕ) (d : Description)
      → find_pc t s.pcs ≡ none
      → Step s (offer_complete env conf t pc d s).1
  requested :
      (pc : ℕ) (h : Header) (b : Bool) (remote : Text) → Step s (handle_request pc h b remote s).1
  computed :
      (env : Sockets) (conf : Settings) (pc : ℕ) (sdp : Text)
      → Step s (answer_complete env conf pc sdp s).1
  answered : (t : ℕ) (sdp : Text) → Step s (process_answer t sdp s).1
  elsewhere :
      (n : Node) → n.pending_requests ≡ s.node.pending_requests → Step s (record s { node = n })

pub data Reach (start : Service) : Service → Type 0 where
  here : Reach start start
  further : {s s' : Service} → Reach start s → Step s s' → Reach start s'

pub new_message-cases :
    (conf : Settings) (local : Text) (t : ℕ) (dests : List RoutableId)
    → ((new_message conf local t dests ≡ none) × (dests ≡ []))
      ⊎ ((h : Header) × (new_message conf local t dests ≡ some h)
          × (h.transaction ≡ t)
          × (h.destination_list ≡ dests))
unfolding new_message
new_message-cases conf local t [] = inl (refl, refl)
new_message-cases conf local t (d ∷ ds) = inr (_, refl, refl, refl)

send_offer-IsOnce :
    (env : Sockets) (conf : Settings) (t : ℕ) (sdp : Text) (o : Offer) (s : Service)
    → find_pc t s.pcs ≡ none
    → IsOnce s
    → IsOnce (send_offer env conf t sdp o s).1
send_offer-IsOnce env conf t sdp o s fresh k =
    elim (new_message-cases conf s.node.local t o.dests) [
      | inl (empty, _) ↦ unfold send_offer in rw (empty, send_offer) k
      | inr (h, made, number, dests) ↦
          unfold send_offer in
          rw (made, send_offer)
            (Once-offer s.node.pending_requests _ s.pcs s.connects h.transaction o.pc
              (rw number fresh)
              (pending-send_request env o.socket h.transaction sdp o.asks_update h.destination_list
                s.node)
              k)
    ]

keep_ips-IsOnce : (d : Description) (s : Service) → IsOnce s → IsOnce (keep_ips d s).1
keep_ips-IsOnce d s k = elim (Option-cases (gathered_ips d)) [
  | inl missing ↦ unfold keep_ips in rw (missing, keep_ips) k
  | inr (ips, found) ↦ unfold keep_ips in rw (found, keep_ips) k
]

offer_complete-IsOnce :
    (env : Sockets) (conf : Settings) (t pc : ℕ) (d : Description) (s : Service)
    → find_pc t s.pcs ≡ none
    → IsOnce s
    → IsOnce (offer_complete env conf t pc d s).1
offer_complete-IsOnce env conf t pc d s fresh k = elim (Option-cases (find_offer pc s.offers)) [
  | inl missing ↦ unfold offer_complete in rw (missing, offer_complete) k
  | inr (o, found) ↦
      unfold offer_complete in
      rw (found, offer_complete)
        (Keeps-after {P = IsOnce} (send_offer env conf t d.sdp o) (λ _. keep_ips d) s
          (send_offer-IsOnce env conf t d.sdp o s fresh k) (λ _. record { at = keep_ips-IsOnce d }))
]

start_answer-IsOnce :
    (pc : ℕ) (h : Header) (remote : Text) (s : Service)
    → IsOnce s
    → IsOnce (start_answer pc h remote s)
unfolding start_answer
start_answer-IsOnce pc h remote s k =
    elim (Bool-cases (has_request h.transaction s.node.pending_requests)) [
      | inl own ↦ rw own k
      | inr other ↦ rw other k
    ]

answer_after-IsOnce :
    (pc : ℕ) (h : Header) (remote : Text) (r : Outcome (Unit {0})) (s : Service)
    → IsOnce s
    → IsOnce (answer_after pc h remote r s).1
unfolding answer_after
answer_after-IsOnce pc h remote thrown s k = k
answer_after-IsOnce pc h remote (returned u) s k = start_answer-IsOnce pc h remote s k

handle_request-IsOnce :
    (pc : ℕ) (h : Header) (b : Bool) (remote : Text) (s : Service)
    → IsOnce s
    → IsOnce (handle_request pc h b remote s).1
unfolding handle_request
handle_request-IsOnce pc h b remote s k =
    let (r, n) = handle_attach_request h b s.node in
    answer_after-IsOnce pc h remote r (record s { node = n })
      (rw (pending-handle_attach_request h b s.node) k)

answer_complete-IsOnce :
    (env : Sockets) (conf : Settings) (pc : ℕ) (sdp : Text) (s : Service)
    → IsOnce s
    → IsOnce (answer_complete env conf pc sdp s).1
answer_complete-IsOnce env conf pc sdp s k = elim (Option-cases (find_answer pc s.answers)) [
  | inl missing ↦ unfold answer_complete in rw (missing, answer_complete) k
  | inr (a, found) ↦
      unfold answer_complete in
      rw (found, answer_complete)
        (rw
          ((send_answer-Keeps (pending-Stable s.node.pending_requests) env (attach_answer sdp) conf
              a.header).at
            s.node refl)
          k)
]

process_answer-IsOnce :
    (t : ℕ) (sdp : Text) (s : Service) → IsOnce s → IsOnce (process_answer t sdp s).1
process_answer-IsOnce t sdp s k = elim (Bool-cases (has_request t s.node.pending_requests)) [
  | inl own ↦
      let (pc, found) = k.matched t own in
      unfold process_answer in
      rw (own, found, process_answer)
        (Once-answer s.node.pending_requests _ s.pcs s.connects
          (record { transaction = t; pc = pc; sdp = sdp }) own found
          (λ u. pending-process_attach_answer t u s.node own) k)
  | inr other ↦ unfold process_answer in rw (other, process_answer) k
]

process_answer-returns :
    (t : ℕ) (sdp : Text) (s : Service) → IsOnce s → (process_answer t sdp s).0 ≡ returned tt
process_answer-returns t sdp s k = elim (Bool-cases (has_request t s.node.pending_requests)) [
  | inl own ↦
      let (pc, found) = k.matched t own in
      unfold process_answer in rw (own, found, process_answer) refl
  | inr other ↦ unfold process_answer in rw (other, process_answer) refl
]

Step-IsOnce : {s s' : Service} → Step s s' → IsOnce s → IsOnce s'
Step-IsOnce (asked stun pc socket dests b) k = unfold attach_to in k
Step-IsOnce {s} (offered env conf t pc d fresh) k = offer_complete-IsOnce env conf t pc d s fresh k
Step-IsOnce {s} (requested pc h b remote) k = handle_request-IsOnce pc h b remote s k
Step-IsOnce {s} (computed env conf pc sdp) k = answer_complete-IsOnce env conf pc sdp s k
Step-IsOnce {s} (answered t sdp) k = process_answer-IsOnce t sdp s k
Step-IsOnce (elsewhere n same_pending) k = rw same_pending k

Reach-IsOnce : {start s : Service} → Reach start s → IsOnce start → IsOnce s
Reach-IsOnce here k = k
Reach-IsOnce (further r st) k = Step-IsOnce st (Reach-IsOnce r k)

-- From a peer with no requests, in any order of the callbacks, if no transaction number is drawn
-- twice: each pending request has its peer connection, so an attach answer never throws; the
-- description of an answer was given to the peer connection of the request with its transaction,
-- which is no longer pending; and no request was answered twice.
pub Reach-answers :
    {start s : Service} (t : ℕ) (sdp : Text)
    → Reach start s
    → start.node.pending_requests ≡ []
    → start.connects ≡ []
    → IsOnce s × ((process_answer t sdp s).0 ≡ returned tt)
Reach-answers {start} {s} t sdp r no_requests no_connects =
    (once, process_answer-returns t sdp s once)
  where
    once : IsOnce s
    once = Reach-IsOnce r (
        rw (no_requests, no_connects)
          (record { matched = λ t h. absurd (unfold has_request in cc); used = tt; distinct = tt }))
