-- ===== src/Attach/Pending.antt =====
-- The pending attach requests of a peer, and the peer connections of their transactions.
use reloadjs.Base.{
  ℕ, ◌==◌, ◌≡◌, refl, ap, Bool, true, false, not, ◌&&◌, ◌||◌, List, [], ◌∷◌, ◌++◌, Option, none,
  some, ◌∙◌, if◌then◌else◌, arith, keep, Text, Bool-cases, inl, inr,
}
use reloadjs.Transport.Header.{RoutableId, Header}
use reloadjs.Node.{Node, Sockets, attach_request}
use reloadjs.Node.Connections.{remove_connection, remove_found}
use reloadjs.Routing.Updates.Stable.{Stable, send_message-Keeps}
use reloadjs.Dispatch.{
  has_request, answer_attach, handle_attach_request, process_attach_answer, send_request,
}
use reloadjs.Attach.{Pc, find_pc, set_pc}

pub has_request-append :
    (t u : ℕ) (ts : List ℕ) → has_request t (ts ++ u ∷ []) ≡ (u == t || has_request t ts)
unfolding has_request
has_request-append t u [] = ground arith
has_request-append t u (x ∷ xs) = ground (arith, has_request-append t u xs)

pub has_request-keep :
    (t u : ℕ) (ts : List ℕ)
    → has_request t (keep (λ x. not (x == u)) ts) ≡ (not (u == t) && has_request t ts)
unfolding has_request
has_request-keep t u [] = ground arith
has_request-keep t u (x ∷ xs) = ground (arith, has_request-keep t u xs)

pub find_pc-set_pc :
    (t u pc : ℕ) (ps : List Pc)
    → find_pc t (set_pc u pc ps) ≡ (if u == t then some pc else find_pc t ps)
unfolding find_pc set_pc
find_pc-set_pc t u pc [] = ground arith
find_pc-set_pc t u pc (p ∷ ps) = ground (arith, find_pc-set_pc t u pc ps)

removed-pending :
    (s : Option ℕ) (n : Node) → (remove_connection s n).pending_requests ≡ n.pending_requests
unfolding remove_connection remove_found
removed-pending none n = refl
removed-pending (some s) n = ground arith

-- The requests that are pending stay the same where messages are written and connections removed.
pub pending-Stable :
    (ts : List ℕ) → Stable (λ (n : Node). n.pending_requests ≡ ts) (λ (x : Text). Unit {0})
pending-Stable ts = record {
  written = λ n d e. e;
  removed = λ s n e. removed-pending s n ∙ e;
  added = λ id sdp now n okay e. e;
  known = λ id n e h. tt;
}

has_request-insert :
    (t u : ℕ) (ts : List ℕ)
    → has_request t (if has_request u ts then ts else ts ++ u ∷ []) ≡ (u == t || has_request t ts)
has_request-insert t u ts = elim (Bool-cases (has_request u ts)) [
  | inl old ↦ rw old (ground (arith, old))
  | inr new ↦ rw new (has_request-append t u ts)
]

pub pending-send_request :
    (env : Sockets) (socket t : ℕ) (sdp : Text) (b : Bool) (dests : List RoutableId) (n : Node)
    (u : ℕ)
    → has_request u (send_request env socket t sdp b dests n).1.pending_requests
      ≡ (t == u || has_request u n.pending_requests)
unfolding send_request
pending-send_request env socket t sdp b dests n u =
    let ts : List ℕ =
      if has_request t n.pending_requests
      then n.pending_requests
      else n.pending_requests ++ t ∷ [] in
    ap (has_request u) (
      (send_message-Keeps (pending-Stable ts) env (some socket) (attach_request sdp b) dests).at
        (record n { pending_requests = ts }) refl)
    ∙ has_request-insert u t n.pending_requests

pub pending-handle_attach_request :
    (h : Header) (b : Bool) (n : Node)
    → (handle_attach_request h b n).1.pending_requests ≡ n.pending_requests
unfolding handle_attach_request answer_attach
pending-handle_attach_request h false n = ground arith
pending-handle_attach_request h true n = ground arith

pub pending-process_attach_answer :
    (t u : ℕ) (n : Node)
    → has_request t n.pending_requests ≡ true
    → has_request u (process_attach_answer t n).pending_requests
      ≡ (not (t == u) && has_request u n.pending_requests)
unfolding process_attach_answer
pending-process_attach_answer t u n own = rw own (has_request-keep u t n.pending_requests)
