-- ===== src/Forwarding/Responsible.antt =====
-- When a peer takes itself for responsible, and what `processDestination` leaves.
use reloadjs.Base.{
  ℕ, ◌≤◌, ◌≡◌, ◌↔◌, refl, inl, inr, true, false, List, [], ◌∷◌, arith, All, last?, Text, Bool-cases,
}
use reloadjs.Ids.{get_distance}
use reloadjs.Transport.Header.{RoutableId, node_id, resource_id, opaque_id}
use reloadjs.Node.{Node, RTableEntry}
use reloadjs.Node.Connections.{is_neighbor}
use reloadjs.Forwarding.{process_destination, nearer_neighbor, own_distance, topology_responsible}

nearer_neighbor-false :
    (n : Node) (dest : Text) (bound : ℕ) (es : List RTableEntry)
    → (nearer_neighbor n dest bound es ≡ false)
      ↔ All (λ e. is_neighbor n e.id ≡ true → bound ≤ get_distance e.id dest) es
unfolding nearer_neighbor
nearer_neighbor-false n dest bound [] = ((λ _. tt), λ _. refl)
nearer_neighbor-false n dest bound (e ∷ es) =
    let rest = nearer_neighbor-false n dest bound es in
    (
      λ h. (λ c. ground arith, rest.0 (ground arith)),
      λ a.
          (let ok = rest.1 a.1 in
            elim (Bool-cases (is_neighbor n e.id)) [
              | inl near ↦ let far = a.0 near in ground arith
              | inr away ↦ ground arith
            ]),
    )

-- A peer takes itself for responsible for a destination exactly when no node of its routing table
-- that it is connected to is nearer than its own distance, which counts as 9007199254740991 until it
-- has joined or is the initiator.
pub topology_responsible_iff :
    (n : Node) (dest : Text)
    → (topology_responsible n dest ≡ true)
      ↔ All
          (λ e. is_neighbor n e.id ≡ true → own_distance n dest ≤ get_distance e.id dest)
          n.table.rtable
unfolding topology_responsible
topology_responsible_iff n dest =
    let loop = nearer_neighbor-false n dest (own_distance n dest) n.table.rtable in
    (λ h. loop.0 (ground arith), λ a. rw (loop.1 a) refl)

-- The last destination stays the last one.
pub last-process_destination :
    (local : Text) (list : List RoutableId) → last? (process_destination local list) ≡ last? list
unfolding process_destination
last-process_destination local [] = refl
last-process_destination local (node_id id ∷ []) = refl
last-process_destination local (node_id id ∷ r ∷ rs) =
    ground (arith, last-process_destination local (r ∷ rs))
last-process_destination local (resource_id id ∷ rs) = refl
last-process_destination local (opaque_id id ∷ rs) = refl
