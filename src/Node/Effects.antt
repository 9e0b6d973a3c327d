-- ===== src/Node/Effects.antt =====
-- Code that changes a state and may throw: what was changed before a throw stays changed.
use reloadjs.Base.{List, [], ◌∷◌}

pub data Outcome {ℓ} (A : Type ℓ) : Type ℓ where
  returned : A → Outcome A
  thrown : Outcome A

abbrev pub Exec {ℓ} : Type ℓ → Type ℓ → Type ℓ
Exec S A = S → Outcome A × S

module _ {ℓ} {S : Type ℓ} where
  abbrev pub pure : {A : Type ℓ} → A → Exec S A
  pure a s = (returned a, s)

  abbrev pub throw : {A : Type ℓ} → Exec S A
  throw s = (thrown, s)

  abbrev pub modify : (S → S) → Exec S (Unit {ℓ})
  modify f s = (returned tt, f s)

  abbrev continue : {A B : Type ℓ} → Outcome A → (A → Exec S B) → Exec S B
  continue (returned a) f s = f a s
  continue thrown f s = (thrown, s)

  infixl 10 ◌>>=◌ ◌>>◌
  abbrev pub ◌>>=◌ : {A B : Type ℓ} → Exec S A → (A → Exec S B) → Exec S B
  ◌>>=◌ m f s = let (r, s') = m s in continue r f s'

  abbrev pub ◌>>◌ : {A B : Type ℓ} → Exec S A → Exec S B → Exec S B
  m >> n = m >>= λ _. n

  -- `try { … } catch (err) { log }`: an exception ends the block and nothing else.
  abbrev pub attempt : {A : Type ℓ} → Exec S A → Exec S (Unit {ℓ})
  attempt m s = (returned tt, (m s).1)

  -- `for (x of xs) body(x)`; an exception ends the loop.
  unfoldable pub for_each : {A : Type ℓ} → List A → (A → Exec S (Unit {ℓ})) → Exec S (Unit {ℓ})
  for_each [] body = pure tt
  for_each (x ∷ xs) body = body x >> for_each xs body
