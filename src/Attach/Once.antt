-- ===== src/Attach/Once.antt =====
-- No request is answered twice: what holds of the transactions of a peer in any order of its
-- callbacks.
use reloadjs.Base.{
  ℕ, ◌==◌, ◌≡◌, ◌≢◌, sym, true, false, not, ◌&&◌, ◌||◌, List, [], ◌∷◌, ◌++◌, none, some, arith, All,
  Bool-cases, inl, inr,
}
use reloadjs.Dispatch.{has_request}
use reloadjs.Attach.{Connect, Pc, Service, find_pc, set_pc}
use reloadjs.Attach.Pending.{find_pc-set_pc}

abbrev pub Others : ℕ → List Connect → Type 0
Others t = All (λ (c : Connect). c.transaction ≢ t)

-- No transaction twice.
abbrev pub Distinct : List Connect → Type 0
Distinct [] = Unit {0}
Distinct (c ∷ cs) = Others c.transaction cs × Distinct cs

-- Was made over the peer connection of its transaction, which is no longer pending.
abbrev pub IsDone : List ℕ → List Pc → Connect → Type 0
IsDone pending pcs c =
    (has_request c.transaction pending ≡ false) × (find_pc c.transaction pcs ≡ some c.pc)

-- Of the pending requests, the peer connections of transactions, and the calls of `ICE.connect`.
pub record Once (pending : List ℕ) (pcs : List Pc) (connects : List Connect) : Type 0 where
  pub matched : (t : ℕ) → has_request t pending ≡ true → (pc : ℕ) × (find_pc t pcs ≡ some pc)
  pub used : All (IsDone pending pcs) connects
  pub distinct : Distinct connects

abbrev pub IsOnce : Service → Type 0
IsOnce s = Once s.node.pending_requests s.pcs s.connects

All-map :
    (P Q : Connect → Type 0)
    → ((c : Connect) → P c → Q c)
    → (cs : List Connect) → All P cs
    → All Q cs
All-map P Q f [] h = tt
All-map P Q f (c ∷ cs) h = (f c h.0, All-map P Q f cs h.1)

All-append :
    (P : Connect → Type 0) (cs : List Connect) (c : Connect) → All P cs → P c → All P (cs ++ c ∷ [])
All-append P [] c h k = (k, tt)
All-append P (x ∷ xs) c h k = (h.0, All-append P xs c h.1 k)

Distinct-append :
    (cs : List Connect) (c : Connect)
    → Distinct cs
    → Others c.transaction cs
    → Distinct (cs ++ c ∷ [])
Distinct-append [] c d h = (tt, tt)
Distinct-append (x ∷ xs) c d h = (
  All-append (λ y. y.transaction ≢ x.transaction) xs c d.0 (λ e. h.0 (sym e)),
  Distinct-append xs c d.1 h.1,
)

-- A request of a new transaction.
pub Once-offer :
    (pending pending' : List ℕ) (pcs : List Pc) (cs : List Connect) (t pc : ℕ)
    → find_pc t pcs ≡ none
    → ((u : ℕ) → has_request u pending' ≡ (t == u || has_request u pending))
    → Once pending pcs cs
    → Once pending' (set_pc t pc pcs) cs
Once-offer pending pending' pcs cs t pc fresh grown o = record {
  matched = λ u h. elim (Bool-cases (t == u)) [
    | inl own ↦ (pc, ground (arith, find_pc-set_pc u t pc pcs, own))
    | inr other ↦
        let (q, found) = o.matched u (ground (arith, grown u, other)) in
        (q, ground (arith, find_pc-set_pc u t pc pcs, other, found))
  ];
  used =
      All-map (IsDone pending pcs) (IsDone pending' (set_pc t pc pcs))
        (λ c d. elim (Bool-cases (t == c.transaction)) [
          | inl own ↦ absurd (ground (arith, own, fresh, d.1))
          | inr other ↦ (
            ground (arith, grown c.transaction, other, d.0),
            ground (arith, find_pc-set_pc c.transaction t pc pcs, other, d.1),
          )
        ])
        cs o.used;
  distinct = o.distinct;
}

-- The answer to a pending request.
pub Once-answer :
    (pending pending' : List ℕ) (pcs : List Pc) (cs : List Connect) (c : Connect)
    → has_request c.transaction pending ≡ true
    → find_pc c.transaction pcs ≡ some c.pc
    → ((u : ℕ) → has_request u pending' ≡ (not (c.transaction == u) && has_request u pending))
    → Once pending pcs cs
    → Once pending' pcs (cs ++ c ∷ [])
Once-answer pending pending' pcs cs c own found less o = record {
  matched = λ u h. o.matched u (ground (arith, less u, h));
  used =
      All-append (IsDone pending' pcs) cs c
        (All-map (IsDone pending pcs) (IsDone pending' pcs)
          (λ x d. (ground (arith, less x.transaction, d.0), d.1)) cs o.used)
        (ground (arith, less c.transaction), found);
  distinct = Distinct-append cs c o.distinct (
      All-map (IsDone pending pcs) (λ x. x.transaction ≢ c.transaction)
        (λ x d e. ground (arith, d.0, own, e)) cs o.used);
}
