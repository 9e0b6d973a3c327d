-- ===== src/Forwarding/Kept.antt =====
-- Forwarding a message keeps the tables tidy.
use reloadjs.Base.{ℕ, inl, inr, List, [], ◌∷◌, Option, none, some, head?, Option-cases}
use reloadjs.Transport.Header.{RoutableId, id_text, Header, to_forward}
use reloadjs.Node.{forward, Sockets, Outcome, returned, thrown, pure}
use reloadjs.Node.Keeps.{Keeps, Keeps-bind}
use reloadjs.Node.Connections.{get_connection, send}
use reloadjs.Node.Tidy.{IsTidy}
use reloadjs.Routing.Updates.Stable.{send-Keeps}
use reloadjs.Routing.Updates.Kept.{IsTidy-Stable}
use reloadjs.Routing.Hops.{Hop, node, plain, nothing, get_next_hops}
use reloadjs.Forwarding.{
  Verdict, dropped, delivered, forwarded, failed, forward_hops, forward_routed, forward_to,
  forward_message, act, handle_forwarding, processed, verdict,
}

send_forward-Keeps :
    (env : Sockets) (h : Header) (s : Option ℕ) → Keeps IsTidy (send env s (λ k. forward k h))
send_forward-Keeps env h s = send-Keeps IsTidy-Stable env s (λ k. forward k h)

forward_hops-Keeps :
    (env : Sockets) (h : Header) (hops : List Hop) → Keeps IsTidy (forward_hops env h hops)
unfolding forward_hops
forward_hops-Keeps env h [] = record { at = λ n t. t }
forward_hops-Keeps env h (nothing ∷ hops) = record { at = λ n t. t }
forward_hops-Keeps env h (plain text ∷ hops) = record { at = λ n t. t }
forward_hops-Keeps env h (node hop ∷ hops) = record {
  at = λ n t.
      (Keeps-bind {P = IsTidy} (send env (get_connection n hop) (λ s. forward s h))
          (λ _. forward_hops env h hops) (send_forward-Keeps env h (get_connection n hop))
          (λ _. forward_hops-Keeps env h hops)).at
        n t;
}

forward_routed-Keeps :
    (env : Sockets) (h : Header) (hops : Outcome (List Hop))
    → Keeps IsTidy (forward_routed env h hops)
unfolding forward_routed
forward_routed-Keeps env h thrown = record { at = λ n t. t }
forward_routed-Keeps env h (returned hops) = record {
  at = λ n t. (forward_hops-Keeps env h hops).at n t;
}

forward_to-Keeps :
    (env : Sockets) (h : Header) (next : Option RoutableId) → Keeps IsTidy (forward_to env h next)
forward_to-Keeps env h none = record { at = λ n t. unfold forward_to in t }
forward_to-Keeps env h (some r) = record {
  at = λ n t. elim (Option-cases (get_connection n (id_text r))) [
    | inl far ↦
        unfold forward_to in
        rw (far, forward_to) ((forward_routed-Keeps env h (get_next_hops n (id_text r))).at n t)
    | inr (s, near) ↦
        unfold forward_to in
        rw (near, forward_to)
          ((Keeps-bind {P = IsTidy} (send env (some s) (λ k. forward k h)) (λ _. pure tt)
              (send_forward-Keeps env h (some s)) (λ _. record { at = λ n t. t })).at
            n t)
  ];
}

forward_message-Keeps : (env : Sockets) (h : Header) → Keeps IsTidy (forward_message env h)
forward_message-Keeps env h = record {
  at = λ n t. elim (Option-cases (to_forward n.local h)) [
    | inl stuck ↦ unfold forward_message in rw (stuck, forward_message) t
    | inr (h', e) ↦
        unfold forward_message in
        rw (e, forward_message) ((forward_to-Keeps env h' (head? h'.destination_list)).at n t)
  ];
}

act-Keeps : (env : Sockets) (h : Header) (v : Verdict) → Keeps IsTidy (act env h v)
unfolding act
act-Keeps env h dropped = record { at = λ n t. t }
act-Keeps env h delivered = record { at = λ n t. t }
act-Keeps env h failed = record { at = λ n t. t }
act-Keeps env h forwarded = record {
  at = λ n t.
      (Keeps-bind {P = IsTidy} (forward_message env h) (λ _. pure forwarded)
          (forward_message-Keeps env h) (λ _. record { at = λ m q. q })).at
        n t;
}

pub handle_forwarding-Keeps :
    (initial_ttl : ℕ) (env : Sockets) (h : Header)
    → Keeps IsTidy (handle_forwarding initial_ttl env h)
unfolding handle_forwarding
handle_forwarding-Keeps initial_ttl env h = record {
  at = λ n t. (act-Keeps env (processed n h) (verdict initial_ttl n h)).at n t;
}
