-- ===== src/Routing/Neighbors/Sorted.antt =====
-- The loops of `neighborsFromTotal` as an insertion sort by a key, with a copy of the first node
-- behind the sorted list.
use reloadjs.Base.{
  ℕ, suc, ◌+◌, ◌<◌, ◌≤◌, ◌≡◌, ◌≢◌, inl, inr, refl, sym, ◌||◌, List, [], ◌∷◌, arith, ltb,
  if◌then◌else◌, length, All, Text, same, has, Bool-cases,
}

module _ (key : Text → ℕ) where
  -- Keys rise along the list, from above a bound.
  abbrev pub Rising : ℕ → List Text → Type 0
  Rising p [] = Unit {0}
  Rising p (x ∷ xs) = (p < key x) × Rising (key x) xs

  -- The key at the end of the list.
  abbrev pub top : ℕ → List Text → ℕ
  top p [] = p
  top p (x ∷ xs) = top (key x) xs

  unfoldable pub insert_sorted : Text → List Text → List Text
  insert_sorted node [] = node ∷ []
  insert_sorted node (x ∷ xs) =
      if ltb (key node) (key x) then node ∷ x ∷ xs else x ∷ insert_sorted node xs

  unfoldable pub sort_onto : List Text → List Text → List Text
  sort_onto xs [] = xs
  sort_onto xs (node ∷ nodes) = sort_onto (insert_sorted node xs) nodes

  abbrev pub Differs : Text → List Text → Type 0
  Differs node = All (λ x. key node ≢ key x)

  -- No two nodes have the same key.
  abbrev pub Apart : List Text → Type 0
  Apart [] = Unit {0}
  Apart (x ∷ xs) = Differs x xs × Apart xs

  pub Rising-insert_sorted :
      (p : ℕ) (node : Text) (xs : List Text)
      → p < key node
      → Rising p xs
      → Differs node xs
      → Rising p (insert_sorted node xs)
  unfolding insert_sorted
  Rising-insert_sorted p node [] h r d = (h, tt)
  Rising-insert_sorted p node (x ∷ xs) h r d = ground (arith, Rising-insert_sorted (key x) node xs)

  pub le-top : (p : ℕ) (xs : List Text) → Rising p xs → p ≤ top p xs
  le-top p [] r = omega arith
  le-top p (x ∷ xs) r = omega (arith, le-top (key x) xs r.1)

  pub top-insert_sorted :
      (p : ℕ) (node : Text) (xs : List Text)
      → p ≤ key node
      → Rising p xs
      → top p xs ≤ top p (insert_sorted node xs)
  unfolding insert_sorted
  top-insert_sorted p node [] h r = omega arith
  top-insert_sorted p node (x ∷ xs) h r = elim (Bool-cases (ltb (key node) (key x))) [
    | inl before ↦ rw before (omega arith)
    | inr behind ↦ rw behind (top-insert_sorted (key x) node xs (ground arith) r.1)
  ]

  pub All-insert_sorted :
      (P : Text → Type 0) (node : Text) (xs : List Text)
      → P node
      → All P xs
      → All P (insert_sorted node xs)
  unfolding insert_sorted
  All-insert_sorted P node [] h a = (h, tt)
  All-insert_sorted P node (x ∷ xs) h a = elim (Bool-cases (ltb (key node) (key x))) [
    | inl before ↦ rw before (h, a)
    | inr behind ↦ rw behind (a.0, All-insert_sorted P node xs h a.1)
  ]

  length-insert_sorted :
      (node : Text) (xs : List Text) → length (insert_sorted node xs) ≡ suc (length xs)
  unfolding insert_sorted
  length-insert_sorted node [] = refl
  length-insert_sorted node (x ∷ xs) = ground (arith, length-insert_sorted node xs)

  has-insert_sorted :
      (x node : Text) (xs : List Text) → has x (insert_sorted node xs) ≡ (same x node || has x xs)
  unfolding insert_sorted has
  has-insert_sorted x node [] = refl
  has-insert_sorted x node (y ∷ xs) = ground (arith, has-insert_sorted x node xs)

  pub length-sort_onto :
      (xs nodes : List Text) → length (sort_onto xs nodes) ≡ length xs + length nodes
  unfolding sort_onto
  length-sort_onto xs [] = omega arith
  length-sort_onto xs (node ∷ nodes) =
      omega (arith, length-sort_onto (insert_sorted node xs) nodes, length-insert_sorted node xs)

  pub has-sort_onto :
      (x : Text) (xs nodes : List Text) → has x (sort_onto xs nodes) ≡ (has x xs || has x nodes)
  unfolding sort_onto has
  has-sort_onto x xs [] = ground arith
  has-sort_onto x xs (node ∷ nodes) =
      ground (arith, has-sort_onto x (insert_sorted node xs) nodes, has-insert_sorted x node xs)

  -- Every node is apart from every entry.
  abbrev pub AllDiffer : List Text → List Text → Type 0
  AllDiffer xs = All (λ node. Differs node xs)

  pub AllDiffer-insert_sorted :
      (node : Text) (xs nodes : List Text)
      → Differs node nodes
      → AllDiffer xs nodes
      → AllDiffer (insert_sorted node xs) nodes
  AllDiffer-insert_sorted node xs [] d a = tt
  AllDiffer-insert_sorted node xs (n ∷ ns) d a = (
    All-insert_sorted (λ x. key n ≢ key x) node xs (λ e. d.0 (sym e)) a.0,
    AllDiffer-insert_sorted node xs ns d.1 a.1,
  )

  pub Rising-sort_onto :
      (p : ℕ) (xs nodes : List Text)
      → Rising p xs
      → All (λ n. p < key n) nodes
      → AllDiffer xs nodes
      → Apart nodes
      → Rising p (sort_onto xs nodes)
  unfolding sort_onto
  Rising-sort_onto p xs [] r h d a = r
  Rising-sort_onto p xs (node ∷ nodes) r h d a =
      Rising-sort_onto p (insert_sorted node xs) nodes (Rising-insert_sorted p node xs h.0 r d.0)
        h.1 (AllDiffer-insert_sorted node xs nodes a.0 d.1) a.1
