-- ===== src/Router/Kept.antt =====
-- The router keeps what writes and removals of connections keep.
use reloadjs.Base.{ℕ, Text, List, [], ◌∷◌, Option, none, some}
use reloadjs.Transport.Header.{RoutableId, Header, Settings, new_response_message}
use reloadjs.Node.{Node, Body, Sockets, Outcome, returned, thrown, pure}
use reloadjs.Node.Keeps.{Keeps, Keeps-bind}
use reloadjs.Node.Connections.{get_connection, send_message}
use reloadjs.Routing.Updates.Stable.{Stable, send_message-Keeps}
use reloadjs.Routing.Hops.{Hop, node, plain, nothing}
use reloadjs.Router.{
  lookup_id, transmit_over, transmit_to, transmit, transmit_all, router_hops, transmit_hops, route,
  send_answer,
}

module _ {P : Node → Type 0} {Okay : Text → Type 0} (stable : Stable P Okay) (env : Sockets)
    (body : Body) (dests : List RoutableId) where
  transmit_over-Keeps : (s : Option ℕ) → Keeps P (transmit_over env body dests s)
  unfolding transmit_over
  transmit_over-Keeps none = record { at = λ n t. t }
  transmit_over-Keeps (some s) = record {
    at = λ n t.
        (Keeps-bind {P = P} (send_message env (some s) body dests) (λ _. pure tt)
            (send_message-Keeps stable env (some s) body dests) (λ _. record { at = λ n t. t })).at
          n t;
  }

  transmit_to-Keeps : (hop : Hop) → Keeps P (transmit_to env body dests hop)
  unfolding transmit_to
  transmit_to-Keeps (node id) = record {
    at = λ n t. (transmit_over-Keeps (get_connection n (lookup_id id))).at n t;
  }
  transmit_to-Keeps (plain text) = record {
    at = λ n t. (transmit_over-Keeps (get_connection n text)).at n t;
  }
  transmit_to-Keeps nothing = record { at = λ n t. t }

  transmit_all-Keeps : (hops : List Hop) → Keeps P (transmit_all env body dests hops)
  unfolding transmit_all transmit
  transmit_all-Keeps [] = record { at = λ n t. t }
  transmit_all-Keeps (hop ∷ hops) = record {
    at = λ n t.
        (Keeps-bind {P = P} (transmit env body dests hop) (λ _. transmit_all env body dests hops)
            (record { at = λ m q. (transmit_to-Keeps hop).at m q })
            (λ _. transmit_all-Keeps hops)).at
          n t;
  }

  transmit_hops-Keeps : (hops : Outcome (List Hop)) → Keeps P (transmit_hops env body dests hops)
  unfolding transmit_hops
  transmit_hops-Keeps thrown = record { at = λ n t. t }
  transmit_hops-Keeps (returned hops) = record { at = λ n t. (transmit_all-Keeps hops).at n t }

module _ {P : Node → Type 0} {Okay : Text → Type 0} (stable : Stable P Okay) (env : Sockets)
    (body : Body) where
  route-Keeps : (dests : List RoutableId) → Keeps P (route env body dests)
  unfolding route
  route-Keeps [] = record { at = λ n t. t }
  route-Keeps (dest ∷ dests) = record {
    at = λ n t. (transmit_hops-Keeps stable env body (dest ∷ dests) (router_hops n dest)).at n t;
  }

  pub send_answer-Keeps : (conf : Settings) (h : Header) → Keeps P (send_answer env conf h body)
  unfolding send_answer
  send_answer-Keeps conf h = record {
    at = λ n t. (route-Keeps (new_response_message conf n.local h).destination_list).at n t;
  }
