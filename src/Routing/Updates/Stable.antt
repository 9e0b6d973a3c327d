-- ===== src/Routing/Updates/Stable.antt =====
-- What the sending of updates and attach requests keeps.
use reloadjs.Base.{
  ℕ, ◌≡◌, refl, true, ◌||◌, List, [], ◌∷◌, Option, none, some, inl, inr, Text, has, Bool-cases,
  Option-cases,
}
use reloadjs.Transport.Header.{RoutableId, node_id}
use reloadjs.Node.{Node, Body, Sockets, Effect, pure, write, write, update_answer, FTableEntry}
use reloadjs.Node.Keeps.{Keeps, Keeps-bind, Keeps-for_each}
use reloadjs.Node.Connections.{remove_connection, send, send_message, get_connection}
use reloadjs.Routing.Table.{is_attached, is_attached_to_all_neighbors}
use reloadjs.Routing.Updates.{
  attach_missing, add_entry, check_finger, add_neighbor, attach_socket, attach_neighbor, neighbors,
  attach_to_all_neighbors, send_update, send_updates, send_update_to_all_neighbors,
}

-- Closed under writes, removals, and the entry of a node that `Okay` lets in.
pub record Stable (P : Node → Type 0) (Okay : Text → Type 0) : Type 0 where
  pub written : (n : Node) (d : List Effect) → P n → P (record n { done = d })
  pub removed : (s : Option ℕ) (n : Node) → P n → P (remove_connection s n)
  pub added :
      (id : Text) (sdp : Option Text) (now : ℕ) (n : Node)
      → Okay id
      → P n
      → P (record n { table = add_entry id sdp now n.table })
  pub known : (id : Text) (n : Node) → P n → has id (neighbors n.table) ≡ true → Okay id

module _ {P : Node → Type 0} {Okay : Text → Type 0} (stable : Stable P Okay) where
  pub send-Keeps :
      (env : Sockets) (s : Option ℕ) (effect : ℕ → Effect) → Keeps P (send env s effect)
  unfolding send
  send-Keeps env none effect = record { at = λ n p. p }
  send-Keeps env (some s) effect = record {
    at = λ n p. elim (Bool-cases (env.writable s)) [
      | inl ok ↦ rw ok (stable.written n _ p)
      | inr failed ↦ rw failed (elim (Bool-cases (env.destroyable s)) [
        | inl tls ↦ rw tls (stable.removed (some s) n p)
        | inr channel ↦ rw channel (stable.removed (some s) n p)
      ])
    ];
  }

  pub send_message-Keeps :
      (env : Sockets) (s : Option ℕ) (body : Body) (dests : List RoutableId)
      → Keeps P (send_message env s body dests)
  unfolding send_message
  send_message-Keeps env s body dests = send-Keeps env s (λ k. write k body dests)

  check_finger-same : (fs : List FTableEntry) (n : Node) → (check_finger fs n).1 ≡ n
  unfolding check_finger
  check_finger-same [] n = refl
  check_finger-same (f ∷ fs) n = refl

  pub add_neighbor-Keeps :
      (id : Text) (sdp : Option Text) (now : ℕ) → Okay id → Keeps P (add_neighbor id sdp now)
  unfolding add_neighbor
  add_neighbor-Keeps id sdp now okay = record {
    at = λ n p. rw (check_finger-same n.table.ftable) (stable.added id sdp now n okay p);
  }

  attach_neighbor-Keeps : (now : ℕ) (id : Text) → Okay id → Keeps P (attach_neighbor now id)
  attach_neighbor-Keeps now id okay = record {
    at = λ n p. elim (Option-cases (get_connection n id)) [
      | inl absent ↦ elim (Option-cases (attach_socket n)) [
        | inl stuck ↦ unfold attach_neighbor in rw (absent, stuck, attach_neighbor) p
        | inr (s, e) ↦
            unfold attach_neighbor in rw (absent, e, attach_neighbor) (stable.written n _ p)
      ]
      | inr (s, e) ↦
          unfold attach_neighbor in
          rw (e, attach_neighbor) ((add_neighbor-Keeps id none now okay).at n p)
    ];
  }

  attach_to_all_neighbors-Keeps : (now : ℕ) → Keeps P (attach_to_all_neighbors now)
  unfolding attach_to_all_neighbors
  attach_to_all_neighbors-Keeps now = record {
    at = λ n p.
        (Keeps-for_each {P = P} (neighbors n.table) (attach_neighbor now)
            (λ x h. attach_neighbor-Keeps now x (stable.known x n p h))).at
          n p;
  }

  send_update-Keeps : (env : Sockets) (id : Text) → Keeps P (send_update env id)
  unfolding send_update
  send_update-Keeps env id = record {
    at = λ n p. elim (Bool-cases (is_attached n.table id)) [
      | inl yes_attached ↦ rw yes_attached (
          (Keeps-bind {P = P}
              (send_message env (get_connection n id)
                (update_answer n.table.predecessors n.table.successors) (node_id id ∷ []))
              (λ _. pure tt) (send_message-Keeps env _ _ _) (λ _. record { at = λ s q. q })).at
            n p)
      | inr not_attached ↦ rw not_attached p
    ];
  }

  send_updates-Keeps : (env : Sockets) → Keeps P (send_updates env)
  unfolding send_updates
  send_updates-Keeps env = record {
    at = λ n p. elim (Bool-cases (n.joined || n.is_overlay_initiator)) [
      | inl in_overlay ↦ rw in_overlay (
          (Keeps-for_each {P = P} (neighbors n.table) (send_update env)
              (λ x _. send_update-Keeps env x)).at
            n p)
      | inr outside ↦ rw outside p
    ];
  }

  attach_missing-Keeps : (now : ℕ) → Keeps P (attach_missing now)
  unfolding attach_missing
  attach_missing-Keeps now = record {
    at = λ n p. elim (Bool-cases (is_attached_to_all_neighbors n.table)) [
      | inl all ↦ rw all p
      | inr some_not ↦ rw some_not ((attach_to_all_neighbors-Keeps now).at n p)
    ];
  }

  pub send_update_to_all_neighbors-Keeps :
      (env : Sockets) (now : ℕ) → Keeps P (send_update_to_all_neighbors env now)
  unfolding send_update_to_all_neighbors
  send_update_to_all_neighbors-Keeps env now =
      Keeps-bind {P = P} (attach_missing now) (λ _. send_updates env) (attach_missing-Keeps now)
        (λ _. send_updates-Keeps env)
