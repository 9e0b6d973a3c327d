-- ===== src/Base/Strings.antt =====
-- JavaScript strings as lists of UTF-16 code units, their comparison, and a `Set` of strings as the
-- list of its members in insertion order.
use Prim.Native.Nat.{ℕ}
use Prim.Native.Char.{code}
use Prim.Native.String.{String}
use mathlib.Core.Path.{◌≡◌, refl}
use mathlib.Core.Logic.{◌↔◌, inl, inr}
use mathlib.Core.Bool.{Bool, true, false, not, ◌&&◌, ◌||◌}
use mathlib.Core.List.{List, [], ◌∷◌, ◌++◌}
use native.Mathlib.Omega.{arith}
use reloadjs.Base.Tests.{◌==◌, Bool-cases, if◌then◌else◌}

abbrev pub Text : Type 0
Text = List ℕ

-- The code units of an ASCII literal.
abbrev pub codes : String → Text
codes String.[] = []
codes (String.◌∷◌ c s) = code c ∷ codes s

-- What an object with no conversion of its own is turned into when it is compared with a string.
abbrev pub object_text : Text
object_text = codes "[object Object]"

unfoldable pub same : Text → Text → Bool
same [] [] = true
same [] (y ∷ t) = false
same (x ∷ s) [] = false
same (x ∷ s) (y ∷ t) = x == y && same s t

same→eq : (s t : Text) → same s t ≡ true → s ≡ t
unfolding same
same→eq [] [] h = refl
same→eq [] (y ∷ t) h = cc
same→eq (x ∷ s) [] h = cc
same→eq (x ∷ s) (y ∷ t) h = ground (arith, same→eq s t)

pub same_refl : (s : Text) → same s s ≡ true
unfolding same
same_refl [] = refl
same_refl (x ∷ s) = ground (arith, same_refl s)

eq→same : (s t : Text) → s ≡ t → same s t ≡ true
eq→same s t h = rw h (same_refl t)

pub same_iff : (s t : Text) → (same s t ≡ true) ↔ (s ≡ t)
same_iff s t = (same→eq s t, eq→same s t)

-- `Set.prototype.has`, `add` and `delete`, and the insertion of the members of a list.
unfoldable pub has : Text → List Text → Bool
has x [] = false
has x (y ∷ ys) = same x y || has x ys

unfoldable pub add : Text → List Text → List Text
add x ys = if has x ys then ys else ys ++ x ∷ []

unfoldable pub delete : Text → List Text → List Text
delete x [] = []
delete x (y ∷ ys) = let rest = delete x ys in if same x y then rest else y ∷ rest

unfoldable pub add_all : List Text → List Text → List Text
add_all s [] = s
add_all s (x ∷ xs) = add_all (add x s) xs

pub has_cons : (x y : Text) (ys : List Text) → has x (y ∷ ys) ≡ (same x y || has x ys)
unfolding has
has_cons x y ys = refl

pub has-append : (x : Text) (ys zs : List Text) → has x (ys ++ zs) ≡ (has x ys || has x zs)
unfolding has
has-append x [] zs = refl
has-append x (y ∷ ys) zs = ground (arith, has-append x ys zs)

pub has-add : (x y : Text) (ys : List Text) → has x (add y ys) ≡ (same x y || has x ys)
unfolding add has
has-add x y ys = elim (Bool-cases (has y ys)) [
  | inl old ↦ rw old (ground (arith, old, same_iff x y))
  | inr new ↦ rw (new, has-append x ys (y ∷ [])) (ground arith)
]

pub has-delete : (x y : Text) (ys : List Text) → has x (delete y ys) ≡ (not (same x y) && has x ys)
unfolding has delete
has-delete x y [] = ground arith
has-delete x y (z ∷ zs) =
    ground (arith, has-delete x y zs, same_iff y z, same_iff x y, same_iff x z)

pub has-add_all : (x : Text) (s xs : List Text) → has x (add_all s xs) ≡ (has x s || has x xs)
unfolding add_all has
has-add_all x s [] = ground arith
has-add_all x s (y ∷ ys) = ground (arith, has-add_all x (add y s) ys, has-add x y s)
