-- ===== src/Routing/Neighbors/Sets.antt =====
-- The cut of a sorted list to its nearest entries, and what is to be shown of it.
use reloadjs.Base.{
  ℕ, zero, suc, ◌<◌, ◌≡◌, refl, ◌⊎◌, inl, inr, ◌∙◌, true, List, [], ◌∷◌, ◌++◌, min, arith, take,
  length, All, Text, same, same_iff, has, add, add_all, Bool-cases,
}
use reloadjs.Routing.Neighbors.Sorted.{Rising}
use reloadjs.Routing.Neighbors.{cache_size}

module _ (key : Text → ℕ) where
  Rising-lt : (p : ℕ) (x : Text) (xs : List Text) → Rising key p xs → has x xs ≡ true → p < key x
  unfolding has
  Rising-lt p x [] r h = cc
  Rising-lt p x (y ∷ ys) r h = ground (arith, same_iff x y, Rising-lt (key y) x ys)

  Rising-take : (p n : ℕ) (xs : List Text) → Rising key p xs → Rising key p (take n xs)
  Rising-take p zero xs r = tt
  Rising-take p (suc n) [] r = tt
  Rising-take p (suc n) (x ∷ xs) r = (r.0, Rising-take (key x) n xs r.1)

  has-take : (n : ℕ) (x : Text) (xs : List Text) → has x (take n xs) ≡ true → has x xs ≡ true
  unfolding has
  has-take zero x xs h = cc
  has-take (suc n) x [] h = cc
  has-take (suc n) x (y ∷ ys) h = ground (arith, has-take n x ys)

  take_nearest :
      (p n : ℕ) (x : Text) (xs : List Text)
      → Rising key p xs
      → has x xs ≡ true
      → (has x (take n xs) ≡ true) ⊎ All (λ y. key y < key x) (take n xs)
  unfolding has
  take_nearest p zero x xs r h = inr tt
  take_nearest p (suc n) x [] r h = cc
  take_nearest p (suc n) x (y ∷ ys) r h = elim (Bool-cases (same x y)) [
    | inl hit ↦ inl (rw hit)
    | inr miss ↦ elim (take_nearest (key y) n x ys r.1 (ground arith)) [
      | inl found ↦ inl (rw (miss, found))
      | inr below ↦ inr (Rising-lt (key y) x ys r.1 (ground arith), below)
    ]
  ]

  -- What is cut off behind the third entry may be a copy of an entry before.
  pub add_all-take :
      (first : Text) (xs : List Text)
      → Rising key 0 xs
      → has first xs ≡ true
      → add_all [] (take cache_size (xs ++ first ∷ [])) ≡ take cache_size xs
  unfolding add_all add has
  add_all-take first [] r h = cc
  add_all-take first (x ∷ []) r h = ground (arith, same_iff first x)
  add_all-take first (x ∷ y ∷ []) r h =
      ground (arith, same_iff first x, same_iff first y, same_iff y x)
  add_all-take first (x ∷ y ∷ z ∷ zs) r h = ground (arith, same_iff y x, same_iff z x, same_iff z y)

  length-take : (n : ℕ) (xs : List Text) → length (take n xs) ≡ min n (length xs)
  length-take zero xs = omega arith
  length-take (suc n) [] = omega arith
  length-take (suc n) (x ∷ xs) = omega (arith, length-take n xs)

  -- `chosen` holds the nearest of the nodes, by rising keys.
  pub record IsNearest (nodes chosen : List Text) : Type 0 where
    pub rising : Rising key 0 chosen
    pub sized : length chosen ≡ min cache_size (length nodes)
    pub drawn : (x : Text) → has x chosen ≡ true → has x nodes ≡ true
    pub nearest :
        (x : Text) → has x nodes ≡ true → (has x chosen ≡ true) ⊎ All (λ y. key y < key x) chosen
    pub all_if_fewer :
        length chosen < cache_size → (x : Text) → has x nodes ≡ true → has x chosen ≡ true

  take_whole :
      (n : ℕ) (x : Text) (xs : List Text) → length (take n xs) < n → has x (take n xs) ≡ has x xs
  unfolding has
  take_whole zero x xs h = absurd (omega (arith, h))
  take_whole (suc n) x [] h = refl
  take_whole (suc n) x (y ∷ ys) h = rw (take_whole n x ys (omega (arith, h))) refl

  pub take-IsNearest :
      (nodes sorted : List Text)
      → Rising key 0 sorted
      → length sorted ≡ length nodes
      → ((x : Text) → has x sorted ≡ has x nodes)
      → IsNearest nodes (take cache_size sorted)
  take-IsNearest nodes sorted r l m = record {
    rising = Rising-take 0 cache_size sorted r;
    sized = rw (length-take cache_size sorted, l);
    drawn = λ x h. rw (← m x) (has-take cache_size x sorted h);
    nearest = λ x h. take_nearest 0 cache_size x sorted r (m x ∙ h);
    all_if_fewer = λ l x h. take_whole cache_size x sorted l ∙ m x ∙ h;
  }
