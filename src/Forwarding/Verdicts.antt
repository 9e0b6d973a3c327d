-- ===== src/Forwarding/Verdicts.antt =====
-- The decisions of `handleForwarding`, and what it writes.
use reloadjs.Base.{
  ℕ, ◌-◌, ◌≤◌, ◌≡◌, ◌≢◌, refl, sym, ◌∙◌, inl, inr, Bool, true, false, List, [], ◌∷◌, ◌++◌, Option,
  none, some, arith, append_assoc, append-nil, head?, All, Text, Bool-cases, Option-cases,
}
use reloadjs.Transport.Header.{RoutableId, node_id, id_text, Header, to_forward}
use reloadjs.Node.{Node, Effect, forward, Sockets, Outcome, returned, thrown, Connection, pure}
use reloadjs.Node.Keeps.{Keeps, Keeps-bind}
use reloadjs.Node.Connections.{remove_connection, remove_found, send, get_connection, find_socket}
use reloadjs.Routing.Hops.{Hop, node, plain, nothing, get_next_hops}
use reloadjs.Forwarding.{
  Verdict, dropped, delivered, forwarded, failed, is_valid_destination, verdict_for, decide_valid,
  processed, verdict, act, handle_forwarding, forward_hops, forward_routed, forward_to,
  forward_message,
}

-- A message is forwarded only with a TTL of at least 2 that is not above the initial TTL.
pub verdict-forwarded :
    (initial_ttl : ℕ) (n : Node) (h : Header)
    → verdict initial_ttl n h ≡ forwarded
    → (2 ≤ h.ttl) × (h.ttl ≤ initial_ttl)
verdict-forwarded initial_ttl n h e =
    go (is_valid_destination n (processed n h).destination_list)
      (head? (processed n h).destination_list) (unfold verdict in e)
  where
    go :
        (valid : Outcome Bool) (next : Option RoutableId)
        → decide_valid initial_ttl n (processed n h) valid next ≡ forwarded
        → (2 ≤ h.ttl) × (h.ttl ≤ initial_ttl)
    go thrown next e = unfold decide_valid in cc
    go (returned false) next e = unfold decide_valid in cc
    go (returned true) none e = unfold decide_valid in cc
    go (returned true) (some next) e = unfold decide_valid verdict_for processed in ground arith

-- The header that goes out: the same in all fields but with one less to live, and with the local node
-- behind the via list.
pub record IsNextOf (local : Text) (h h' : Header) : Type 0 where
  pub lives : h'.ttl ≡ h.ttl - 1
  pub passed : h'.via_list ≡ h.via_list ++ node_id local ∷ []
  pub whole : h' ≡ record h { ttl = h.ttl - 1; via_list = h.via_list ++ node_id local ∷ [] }

pub to_forward-IsNextOf :
    (local : Text) (h h' : Header) → to_forward local h ≡ some h' → IsNextOf local h h'
unfolding to_forward
to_forward-IsNextOf local h h' e = ground arith

-- What was done since `start` is the forwarding of such headers.
abbrev pub Forwards : Text → Header → Effect → Type 0
Forwards local h (forward s h') = IsNextOf local h h'
Forwards local h _ = ⊥

-- Every effect behind those of `start` forwards a header that follows `h` at the node `local`.
pub record OnlyForwards (local : Text) (h : Header) (start : List Effect) (n : Node) : Type 0 where
  pub added : List Effect
  pub behind : n.done ≡ start ++ added
  pub forwards : All (Forwards local h) added

done-remove_found :
    (s : ℕ) (found : Option Connection) (n : Node) → (remove_found s found n).done ≡ n.done
unfolding remove_found
done-remove_found s none n = refl
done-remove_found s (some c) n = refl

done-remove_connection : (s : ℕ) (n : Node) → (remove_connection (some s) n).done ≡ n.done
unfolding remove_connection
done-remove_connection s n = done-remove_found s (find_socket s n.connections) n

All-snoc :
    (P : Effect → Type 0) (xs : List Effect) (x : Effect) → All P xs → P x → All P (xs ++ x ∷ [])
All-snoc P [] x a p = (p, tt)
All-snoc P (y ∷ xs) x a p = (a.0, All-snoc P xs x a.1 p)

module _ (env : Sockets) (local : Text) (h h' : Header) (next : IsNextOf local h h')
    (start : List Effect) where
  abbrev Only : Node → Type 0
  Only = OnlyForwards local h start

  Only-done : (n n' : Node) → n'.done ≡ n.done → Only n → Only n'
  Only-done n n' e o = record { added = o.added; behind = e ∙ o.behind; forwards = o.forwards }

  send-Only : (s : Option ℕ) → Keeps Only (send env s (λ k. forward k h'))
  unfolding send
  send-Only none = record { at = λ n o. o }
  send-Only (some s) = record {
    at = λ n o. elim (Bool-cases (env.writable s)) [
      | inl ok ↦ rw ok (record {
        added = o.added ++ forward s h' ∷ [];
        behind = rw (o.behind, append_assoc) refl;
        forwards = All-snoc (Forwards local h) o.added (forward s h') o.forwards next;
      })
      | inr broken ↦ rw broken (elim (Bool-cases (env.destroyable s)) [
        | inl tls ↦ rw tls (Only-done n _ (done-remove_connection s n) o)
        | inr channel ↦ rw channel (Only-done n _ (done-remove_connection s n) o)
      ])
    ];
  }

  forward_hops-Only : (hops : List Hop) → Keeps Only (forward_hops env h' hops)
  unfolding forward_hops
  forward_hops-Only [] = record { at = λ n o. o }
  forward_hops-Only (nothing ∷ hops) = record { at = λ n o. o }
  forward_hops-Only (plain text ∷ hops) = record { at = λ n o. o }
  forward_hops-Only (node hop ∷ hops) = record {
    at = λ n o.
        (Keeps-bind {P = Only} (send env (get_connection n hop) (λ s. forward s h'))
            (λ _. forward_hops env h' hops) (send-Only (get_connection n hop))
            (λ _. forward_hops-Only hops)).at
          n o;
  }

  forward_routed-Only : (hops : Outcome (List Hop)) → Keeps Only (forward_routed env h' hops)
  unfolding forward_routed
  forward_routed-Only thrown = record { at = λ n o. o }
  forward_routed-Only (returned hops) = record { at = λ n o. (forward_hops-Only hops).at n o }

  forward_to-Only : (next_hop : Option RoutableId) → Keeps Only (forward_to env h' next_hop)
  forward_to-Only none = record { at = λ n o. unfold forward_to in o }
  forward_to-Only (some r) = record {
    at = λ n o. elim (Option-cases (get_connection n (id_text r))) [
      | inl far ↦
          unfold forward_to in
          rw (far, forward_to) ((forward_routed-Only (get_next_hops n (id_text r))).at n o)
      | inr (s, near) ↦
          unfold forward_to in
          rw (near, forward_to)
            ((Keeps-bind {P = Only} (send env (some s) (λ k. forward k h')) (λ _. pure tt)
                (send-Only (some s)) (λ _. record { at = λ m q. q })).at
              n o)
    ];
  }

unchanged : (local : Text) (h : Header) (n : Node) → OnlyForwards local h n.done n
unchanged local h n = record { added = []; behind = sym (append-nil n.done); forwards = tt }

forward_message-Only :
    (env : Sockets) (h : Header) (n : Node)
    → OnlyForwards n.local h n.done (forward_message env h n).1
forward_message-Only env h n = elim (Option-cases (to_forward n.local h)) [
  | inl stuck ↦ unfold forward_message in rw (stuck, forward_message) (unchanged n.local h n)
  | inr (h', e) ↦
      unfold forward_message in
      rw (e, forward_message)
        ((forward_to-Only env n.local h h' (to_forward-IsNextOf n.local h h' e) n.done
            (head? h'.destination_list)).at
          n (unchanged n.local h n))
]

act-Only :
    (env : Sockets) (h : Header) (v : Verdict) (n : Node)
    → OnlyForwards n.local h n.done (act env h v n).1
unfolding act
act-Only env h dropped n = unchanged n.local h n
act-Only env h delivered n = unchanged n.local h n
act-Only env h failed n = unchanged n.local h n
act-Only env h forwarded n =
    (Keeps-bind {P = OnlyForwards n.local h n.done} (λ (_ : Node). forward_message env h n)
        (λ _. pure forwarded) (record { at = λ m o. forward_message-Only env h n })
        (λ _. record { at = λ m q. q })).at
      n (unchanged n.local h n)

-- All that `handleForwarding` writes are forwarded messages whose header is that of the message, with
-- the destinations that are left by `processDestination`, one less to live and the local node behind
-- the via list: every other field of the header is the same. The content is not looked at.
pub handle_forwarding-OnlyForwards :
    (initial_ttl : ℕ) (env : Sockets) (h : Header) (n : Node)
    → OnlyForwards n.local (processed n h) n.done (handle_forwarding initial_ttl env h n).1
unfolding handle_forwarding
handle_forwarding-OnlyForwards initial_ttl env h n =
    act-Only env (processed n h) (verdict initial_ttl n h) n

act_silent :
    (env : Sockets) (h : Header) (v : Verdict) (n : Node) → v ≢ forwarded → (act env h v n).1 ≡ n
unfolding act
act_silent env h dropped n d = refl
act_silent env h delivered n d = refl
act_silent env h failed n d = refl
act_silent env h forwarded n d = absurd (d refl)

-- Where the decision is not to forward, the peer is left as it was.
pub handle_forwarding_silent :
    (initial_ttl : ℕ) (env : Sockets) (h : Header) (n : Node)
    → verdict initial_ttl n h ≢ forwarded
    → (handle_forwarding initial_ttl env h n).1 ≡ n
unfolding handle_forwarding
handle_forwarding_silent initial_ttl env h n d =
    act_silent env (processed n h) (verdict initial_ttl n h) n d
