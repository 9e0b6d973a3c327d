-- ===== src/Routing/Default/Nearest.antt =====
-- The next hop of Routing/DefaultRoutingTable.js is the nearest neighbor.
use mathlib.Core.List.{Memᴰ}
use reloadjs.Base.{
  ℕ, ◌≤◌, ◌<◌, ◌≡◌, refl, ◌⊎◌, inl, inr, true, false, List, [], ◌∷◌, Option, none, some, arith, All,
  Text, same, Bool-cases,
}
use reloadjs.Ids.{get_distance}
use reloadjs.Routing.Default.{is_closer, find_closer, get_closer_id, get_default_hops}

-- No other id of the list is nearer than the bound.
pub Above : Text → ℕ → List Text → Type 0
Above id bound = All (λ v. same v id ≡ false → bound ≤ get_distance v id)

-- The nearest other id of the list, and below the bound.
pub record IsClosest (id : Text) (bound : ℕ) (values : List Text) (v : Text) : Type 0 where
  pub member : Memᴰ v values
  pub other : same v id ≡ false
  pub below : get_distance v id < bound
  pub least : Above id (get_distance v id) values

find_closer-cases :
    (id : Text) (bound : ℕ) (found : Option Text) (values : List Text)
    → ((find_closer id bound found values ≡ found) × Above id bound values)
      ⊎ ((v : Text) × (find_closer id bound found values ≡ some v) × IsClosest id bound values v)
unfolding find_closer Above is_closer
find_closer-cases id bound found [] = inl (refl, tt)
find_closer-cases id bound found (x ∷ xs) = elim (Bool-cases (is_closer id bound x)) [
  | inl hit ↦
      rw (hit, find_closer) (nearer hit (find_closer-cases id (get_distance x id) (some x) xs))
  | inr miss ↦ rw (miss, find_closer) (farther miss (find_closer-cases id bound found xs))
]
  where
    nearer :
        is_closer id bound x ≡ true
        → ((find_closer id (get_distance x id) (some x) xs ≡ some x)
            × Above id (get_distance x id) xs)
          ⊎ ((v : Text) × (find_closer id (get_distance x id) (some x) xs ≡ some v)
              × IsClosest id (get_distance x id) xs v)
        → ((find_closer id (get_distance x id) (some x) xs ≡ found) × Above id bound (x ∷ xs))
          ⊎ ((v : Text) × (find_closer id (get_distance x id) (some x) xs ≡ some v)
              × IsClosest id bound (x ∷ xs) v)
    nearer hit (inl (e, above)) = inr (
      x,
      e,
      record {
        member = Memᴰ.head refl;
        other = ground (arith, hit);
        below = ground (arith, hit);
        least = ((λ _. omega arith), above);
      },
    )
    nearer hit (inr (v, e, best)) = inr (
      v,
      e,
      record {
        member = Memᴰ.tail best.member;
        other = best.other;
        below = let b = best.below in ground (arith, hit, b);
        least = ((λ _. omega (arith, best.below)), best.least);
      },
    )

    farther :
        is_closer id bound x ≡ false
        → ((find_closer id bound found xs ≡ found) × Above id bound xs)
          ⊎ ((v : Text) × (find_closer id bound found xs ≡ some v) × IsClosest id bound xs v)
        → ((find_closer id bound found xs ≡ found) × Above id bound (x ∷ xs))
          ⊎ ((v : Text) × (find_closer id bound found xs ≡ some v) × IsClosest id bound (x ∷ xs) v)
    farther miss (inl (e, above)) = inl (e, ((λ o. ground (arith, miss, o)), above))
    farther miss (inr (v, e, best)) = inr (
      v,
      e,
      record {
        member = Memᴰ.tail best.member;
        other = best.other;
        below = best.below;
        least = ((λ o. let b = best.below in ground (arith, miss, o, b)), best.least);
      },
    )

-- The one next hop is the nearest of the neighbors other than the destination, or null if all of them
-- are 9007199254740991 or more away.
pub get_default_hops-cases :
    (destination : Text) (neighbors : List Text)
    → ((get_default_hops destination neighbors ≡ none ∷ [])
        × Above destination 9007199254740991 neighbors)
      ⊎ ((v : Text) × (get_default_hops destination neighbors ≡ some v ∷ [])
          × IsClosest destination 9007199254740991 neighbors v)
unfolding get_default_hops get_closer_id
get_default_hops-cases destination neighbors =
    elim (find_closer-cases destination 9007199254740991 none neighbors) [
      | inl (e, above) ↦ inl (rw e refl, above)
      | inr (v, e, best) ↦ inr (v, rw e refl, best)
    ]
