-- ===== src/Routing/Fingers.antt =====
-- The fingers of Routing/CHORDRoutingTable.js: `addFinger` and `getClosestPrecedingFinger`. No other
-- code adds an entry to the finger table.
use reloadjs.Base.{
  ◌==◌, ◌≡◌, refl, ap, ◌∙◌, Bool, true, false, not, ◌||◌, ◌&&◌, List, [], ◌∷◌, ◌++◌, Option, none,
  some, if◌then◌else◌, All, Text, same, arith,
}
use reloadjs.Ids.{element_of_interval}
use reloadjs.Node.{
  NodeState, unknown, attached, updates_received, rank, FTableEntry, Table, Outcome, returned,
  thrown, Exec,
}

-- A field that is undefined equals no state.
unfoldable pub state_is : NodeState → Option NodeState → Bool
state_is state none = false
state_is state (some s) = rank s == rank state

-- `fingerSuccessors`, a Set with null as a member.
unfoldable pub same_successor : Option Text → Option Text → Bool
same_successor none none = true
same_successor (some a) (some b) = same a b
same_successor none (some b) = false
same_successor (some a) none = false

unfoldable pub has_successor : Option Text → List (Option Text) → Bool
unfolding same_successor
has_successor s [] = false
has_successor s (x ∷ xs) = same_successor s x || has_successor s xs

unfoldable pub add_successor : Option Text → List (Option Text) → List (Option Text)
unfolding has_successor
add_successor s xs = if has_successor s xs then xs else xs ++ s ∷ []

-- The constructor: `nodeState` is undefined, as `nodestate` is written.
unfoldable pub new_finger : Option Text → Text → FTableEntry
new_finger successor id = record {
  id = id;
  successor = successor;
  node_state = none;
  valid = false;
}

unfoldable pub filled : Text → NodeState → FTableEntry → FTableEntry
filled finger state e = record e { node_state = some state; successor = some finger; valid = true }

-- The third branch; without a successor the conversion of its id throws.
unfoldable pub refill : Text → NodeState → FTableEntry → Option Text → Outcome FTableEntry
unfolding filled
refill finger state e none = thrown
refill finger state e (some successor) =
    returned (if element_of_interval finger e.id successor false then filled finger state e else e)

-- The round of the loop for one entry.
unfoldable pub finger_entry : Text → Text → NodeState → FTableEntry → Outcome FTableEntry
unfolding state_is filled refill
finger_entry local finger state e =
    if state_is unknown e.node_state
    then if element_of_interval e.id local finger true
      then returned (filled finger state e)
      else if state_is attached e.node_state && state_is updates_received (some state)
      then returned (record e { node_state = some state })
      else refill finger state e e.successor
    else returned e

-- The loop; an exception ends it, and what was changed before stays changed.
unfoldable pub finger_loop :
    Text
    → Text
    → NodeState
    → List FTableEntry
    → List (Option Text)
    → Outcome (Unit {0}) × List FTableEntry × List (Option Text)
unfolding finger_entry add_successor
finger_loop local finger state [] seen = (returned tt, [], seen)
finger_loop local finger state (e ∷ es) seen =
    let seen' : List (Option Text) = add_successor e.successor seen in
    let (r, later, seen'') = finger_loop local finger state es seen' in
    elim (finger_entry local finger state e) [
      | thrown ↦ (thrown, e ∷ es, seen')
      | returned e' ↦ (r, e' ∷ later, seen'')
    ]

-- `addFinger`, whose first test reads the configuration of the user. The time of the change and
-- `pinging`, which nothing reads, are left out.
unfoldable pub add_finger : Bool → Text → Text → NodeState → Exec Table (Unit {0})
unfolding finger_loop
add_finger user_mode_client local finger state t =
    if user_mode_client
    then (returned tt, t)
    else let (r, entries, seen) = finger_loop local finger state t.ftable t.finger_successors in
      (r, record t { ftable = entries; finger_successors = seen })

-- The entries with different successors that have sent updates.
unfoldable pub distinct_fingers : List FTableEntry → List (Option Text) → List FTableEntry
unfolding state_is has_successor
distinct_fingers [] seen = []
distinct_fingers (e ∷ es) seen =
    let taken = e ∷ distinct_fingers es (seen ++ e.successor ∷ []) in
    let left = distinct_fingers es seen in
    if not (has_successor e.successor seen) && state_is updates_received e.node_state
    then taken
    else left

-- `getNode` of a plain id is undefined.
pub data FingerNode : Type 0 where
  undefined null : FingerNode

unfoldable pub precedes : Text → Text → Option Text → Bool
precedes local dest none = false
precedes local dest (some successor) = element_of_interval successor local dest false

unfoldable pub first_preceding : Text → Text → List FTableEntry → FingerNode
unfolding precedes
first_preceding local dest [] = null
first_preceding local dest (e ∷ es) =
    let later = first_preceding local dest es in
    if precedes local dest e.successor then undefined else later

-- `getClosestPrecedingFinger`.
unfoldable pub get_closest_preceding_finger : Text → Text → Table → FingerNode
unfolding first_preceding distinct_fingers
get_closest_preceding_finger local dest t =
    first_preceding local dest (distinct_fingers t.ftable [])

-- The successors of entries, added in turn.
unfoldable pub add_successors : List FTableEntry → List (Option Text) → List (Option Text)
add_successors [] seen = seen
add_successors (e ∷ es) seen = add_successors es (add_successor e.successor seen)

-- The entry is one that the constructor makes.
abbrev pub IsNew : FTableEntry → Type 0
IsNew e = e ≡ new_finger e.successor e.id

IsNew-state : (e : FTableEntry) → IsNew e → e.node_state ≡ none
IsNew-state e new = ap (λ (x : FTableEntry). x.node_state) new ∙ unfold new_finger in refl

finger_loop-new :
    (local finger : Text) (state : NodeState) (es : List FTableEntry) (seen : List (Option Text))
    → All IsNew es
    → finger_loop local finger state es seen ≡ (returned tt, es, add_successors es seen)
unfolding finger_loop finger_entry add_successors state_is
finger_loop-new local finger state [] seen new = refl
finger_loop-new local finger state (e ∷ es) seen (new, later) =
    rw
      (
        IsNew-state e new,
        finger_loop-new local finger state es (add_successor e.successor seen) later,
      )
      refl

distinct_fingers-new :
    (es : List FTableEntry) (seen : List (Option Text))
    → All IsNew es
    → distinct_fingers es seen ≡ []
unfolding distinct_fingers state_is
distinct_fingers-new [] seen new = refl
distinct_fingers-new (e ∷ es) seen (new, later) =
    rw (IsNew-state e new, distinct_fingers-new es seen later) (ground arith)

-- With entries that the constructor has made, `addFinger` enters a finger nowhere, whatever the
-- finger and its state are, and `getClosestPrecedingFinger` finds none.
pub add_finger-new :
    (local finger dest : Text) (state : NodeState) (t : Table)
    → All IsNew t.ftable
    → let (r, t') = add_finger false local finger state t in
      (r ≡ returned tt)
      × (t' ≡ record t { finger_successors = add_successors t.ftable t.finger_successors })
      × (get_closest_preceding_finger local dest t' ≡ null)
unfolding add_finger get_closest_preceding_finger first_preceding
add_finger-new local finger dest state t new =
    rw
      (
        finger_loop-new local finger state t.ftable t.finger_successors new,
        distinct_fingers-new t.ftable [] new,
      )
      (refl, refl, refl)
