-- ===== src/Base/Unique.antt =====
-- Lists in which no two elements have the same id, and bounds on the length of sets.
use Prim.Native.Nat.{ℕ, zero, suc, ◌+◌, ◌≤◌}
use mathlib.Core.Path.{sym}
use mathlib.Core.Logic.{◌≢◌, inl, inr}
use mathlib.Core.Bool.{Bool}
use mathlib.Core.List.{List, [], ◌∷◌, ◌++◌}
use native.Mathlib.Omega.{arith}
use reloadjs.Base.Tests.{Bool-cases}
use reloadjs.Base.Lists.{length, length-append, take, keep, All}
use reloadjs.Base.Strings.{Text, add, delete, add_all}

module _ {A : Type 0} (id_of : A → Text) where
  abbrev pub Lacks : Text → List A → Type 0
  Lacks id = All (λ x. id_of x ≢ id)

  abbrev pub Unique : List A → Type 0
  Unique [] = Unit {0}
  Unique (x ∷ xs) = Lacks (id_of x) xs × Unique xs

  pub Lacks-append :
      (id : Text) (xs : List A) (y : A) → Lacks id xs → id_of y ≢ id → Lacks id (xs ++ y ∷ [])
  Lacks-append id [] y h k = (k, tt)
  Lacks-append id (x ∷ xs) y h k = (h.0, Lacks-append id xs y h.1 k)

  pub Unique-append : (xs : List A) (y : A) → Unique xs → Lacks (id_of y) xs → Unique (xs ++ y ∷ [])
  Unique-append [] y u h = (tt, tt)
  Unique-append (x ∷ xs) y u h =
      (Lacks-append (id_of x) xs y u.0 (λ e. h.0 (sym e)), Unique-append xs y u.1 h.1)

  pub Lacks-keep : (p : A → Bool) (id : Text) (xs : List A) → Lacks id xs → Lacks id (keep p xs)
  Lacks-keep p id [] h = tt
  Lacks-keep p id (x ∷ xs) h = elim (Bool-cases (p x)) [
    | inl kept ↦ rw kept (h.0, Lacks-keep p id xs h.1)
    | inr dropped ↦ rw dropped (Lacks-keep p id xs h.1)
  ]

  pub Unique-keep : (p : A → Bool) (xs : List A) → Unique xs → Unique (keep p xs)
  Unique-keep p [] u = tt
  Unique-keep p (x ∷ xs) u = elim (Bool-cases (p x)) [
    | inl kept ↦ rw kept (Lacks-keep p (id_of x) xs u.0, Unique-keep p xs u.1)
    | inr dropped ↦ rw dropped (Unique-keep p xs u.1)
  ]

pub length-delete : (x : Text) (xs : List Text) → length (delete x xs) ≤ length xs
unfolding delete
length-delete x [] = omega arith
length-delete x (y ∷ ys) = ground (arith, length-delete x ys)

length-add : (x : Text) (xs : List Text) → length (add x xs) ≤ suc (length xs)
unfolding add
length-add x xs = ground (arith, length-append xs (x ∷ []))

pub length-add_all : (s xs : List Text) → length (add_all s xs) ≤ length s + length xs
unfolding add_all
length-add_all s [] = omega arith
length-add_all s (x ∷ xs) = omega (arith, length-add_all (add x s) xs, length-add x s)

pub length-take-le {ℓ} : {A : Type ℓ} (n : ℕ) (xs : List A) → length (take n xs) ≤ n
length-take-le zero xs = omega arith
length-take-le (suc n) [] = omega arith
length-take-le (suc n) (x ∷ xs) = omega (arith, length-take-le n xs)
