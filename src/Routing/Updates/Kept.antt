-- ===== src/Routing/Updates/Kept.antt =====
-- The two predicates that the sending of updates keeps: tidy tables, and the absence of a node.
use reloadjs.Base.{
  ℕ, ◌++◌, ◌≡◌, ◌≢◌, true, List, [], ◌∷◌, Option, none, inl, inr, arith, Text, object_text, same,
  same_iff, has, has-add_all, add_all, Bool-cases, Option-cases,
}
use reloadjs.Base.Unique.{Lacks, Unique-append, Lacks-append}
use reloadjs.Node.{Node, Table, RTableEntry}
use reloadjs.Node.Tidy.{
  IsTidy, IsGone, entry_id, remove_connection-IsTidy, remove_connection-IsGone,
}
use reloadjs.Routing.Table.{try_get_value}
use reloadjs.Routing.Updates.{new_entry, add_entry, neighbors}
use reloadjs.Routing.Updates.Stable.{Stable}

pub try_get_value-none :
    (es : List RTableEntry) (id : Text) → try_get_value es id ≡ none → Lacks entry_id id es
unfolding try_get_value
try_get_value-none [] id h = tt
try_get_value-none (e ∷ es) id h = elim (Bool-cases (same e.id id)) [
  | inl hit ↦ ground (arith, hit)
  | inr miss ↦ (ground (arith, same_iff e.id id), try_get_value-none es id (ground (arith, miss)))
]

-- An entry is added behind the others, or nothing is changed.
add_entry-cases {ℓ} :
    (P : Table → Type ℓ) (id : Text) (sdp : Option Text) (now : ℕ) (t : Table)
    → P t
    → (try_get_value t.rtable id ≡ none
        → P (record t { rtable = t.rtable ++ new_entry id sdp now ∷ [] }))
    → P (add_entry id sdp now t)
add_entry-cases P id sdp now t old new = elim (Option-cases (try_get_value t.rtable id)) [
  | inl absent ↦ elim (Bool-cases (same id object_text)) [
    | inl object ↦ unfold add_entry in rw (absent, add_entry, object) old
    | inr proper ↦ unfold add_entry in rw (absent, add_entry, proper) (new absent)
  ]
  | inr (e, found) ↦ unfold add_entry in rw (found, add_entry) old
]

pub IsTidy-Stable : Stable IsTidy (λ _. Unit {0})
IsTidy-Stable = record {
  written = λ n d t. record {
    entries = t.entries;
    connected = t.connected;
    few_successors = t.few_successors;
    few_predecessors = t.few_predecessors;
  };
  removed = remove_connection-IsTidy;
  added = λ id sdp now n _ t.
      add_entry-cases (λ table. IsTidy (record n { table = table })) id sdp now n.table t
        (λ absent. record {
          entries =
              unfold new_entry in
              Unique-append entry_id n.table.rtable (new_entry id sdp now) t.entries
                (try_get_value-none n.table.rtable id absent);
          connected = t.connected;
          few_successors = t.few_successors;
          few_predecessors = t.few_predecessors;
        });
  known = λ id n t h. tt;
}

neighbors-IsGone :
    (id x : Text) (n : Node) → IsGone id n → has x (neighbors n.table) ≡ true → x ≢ id
unfolding neighbors has
neighbors-IsGone id x n g h e = ground (
  arith,
  has-add_all x (add_all [] n.table.successors) n.table.predecessors,
  has-add_all x [] n.table.successors,
  g.no_successor,
  g.no_predecessor,
)

pub IsGone-Stable : (id : Text) → Stable (IsGone id) (λ x. x ≢ id)
IsGone-Stable id = record {
  written = λ n d g. record {
    no_entry = g.no_entry;
    no_successor = g.no_successor;
    no_predecessor = g.no_predecessor;
    no_finger = g.no_finger;
  };
  removed = remove_connection-IsGone id;
  added = λ x sdp now n other g.
      add_entry-cases (λ table. IsGone id (record n { table = table })) x sdp now n.table g
        (λ absent. record {
          no_entry =
              unfold new_entry in
              Lacks-append entry_id id n.table.rtable (new_entry x sdp now) g.no_entry other;
          no_successor = g.no_successor;
          no_predecessor = g.no_predecessor;
          no_finger = g.no_finger;
        });
  known = λ x n g h. neighbors-IsGone id x n g h;
}
