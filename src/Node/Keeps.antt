-- ===== src/Node/Keeps.antt =====
-- What an action keeps, whether it returns or throws.
use reloadjs.Base.{◌≡◌, true, List, [], ◌∷◌, arith, Text, has, same_refl}
use reloadjs.Node.Effects.{Exec, Outcome, returned, thrown, attempt, for_each, ◌>>=◌}

pub record Keeps {S A : Type 0} (P : S → Type 0) (m : Exec S A) : Type 0 where
  pub at : (s : S) → P s → P (m s).1

module _ {S : Type 0} {P : S → Type 0} where
  pub Keeps-attempt : {A : Type 0} (m : Exec S A) → Keeps P m → Keeps P (attempt m)
  Keeps-attempt m k = record { at = λ s p. k.at s p }

  Keeps-continue :
      {A B : Type 0} (r : Outcome A) (f : A → Exec S B) (s : S)
      → ((a : A) → Keeps P (f a))
      → P s
      → P ((λ (q : Exec S A). (q >>= f) s) (λ t. (r, t))).1
  Keeps-continue (returned a) f s k p = (k a).at s p
  Keeps-continue thrown f s k p = p

  -- What holds behind the first part holds behind both.
  pub Keeps-after :
      {A B : Type 0} (m : Exec S A) (f : A → Exec S B) (s : S)
      → P (m s).1
      → ((a : A) → Keeps P (f a))
      → P ((m >>= f) s).1
  Keeps-after m f s p kf = let (r, s') = m s in Keeps-continue r f s' kf p

  pub Keeps-bind :
      {A B : Type 0} (m : Exec S A) (f : A → Exec S B)
      → Keeps P m
      → ((a : A) → Keeps P (f a))
      → Keeps P (m >>= f)
  Keeps-bind m f km kf = record { at = λ s p. Keeps-after m f s (km.at s p) kf }

  pub Keeps-for_each :
      (xs : List Text) (body : Text → Exec S (Unit {0}))
      → ((x : Text) → has x xs ≡ true → Keeps P (body x))
      → Keeps P (for_each xs body)
  unfolding for_each
  Keeps-for_each [] body k = record { at = λ s p. p }
  Keeps-for_each (x ∷ xs) body k =
      Keeps-bind (body x) (λ _. for_each xs body) (k x (unfold has in rw (same_refl x)))
        (λ _. Keeps-for_each xs body (λ y h. k y (unfold has in ground (arith, h))))
