-- ===== src/Transport/Wire/Reads.antt =====
-- Reads that may throw, as Transport/messages chains them, and what follows from the result of a chain.
use reloadjs.Base.{ℕ, ◌≡◌, refl, ap, Bool, true, false, List, Option, none, some, if◌then◌else◌}

-- A read and what follows it; reading behind the end throws.
abbrev pub next : {A B : Type 0} → Option (A × List ℕ) → (A → List ℕ → Option B) → Option B
next none f = none
next (some (a, rest)) f = f a rest

-- What is done with a value, if there is one.
abbrev pub given : {A B : Type 0} → Option A → (A → Option B) → Option B
given none f = none
given (some a) f = f a

pub given-some :
    {A B : Type 0} {o : Option A} {a : A} (f : A → Option B) → o ≡ some a → given o f ≡ f a
given-some f e = ap (λ o. given o f) e

pub next-some :
    {A B : Type 0} {o : Option (A × List ℕ)} {a : A} {rest : List ℕ} (f : A → List ℕ → Option B)
    → o ≡ some (a, rest)
    → next o f ≡ f a rest
next-some f e = ap (λ o. next o f) e

pub given-none : {A B : Type 0} {o : Option A} (f : A → Option B) → o ≡ none → given o f ≡ none
given-none f e = ap (λ o. given o f) e

pub given_inv :
    {A B : Type 0} (o : Option A) {f : A → Option B} {r : B}
    → given o f ≡ some r
    → (a : A) × (o ≡ some a) × (f a ≡ some r)
given_inv none e = cc
given_inv (some a) e = (a, refl, e)

pub next_inv :
    {A B : Type 0} (o : Option (A × List ℕ)) {f : A → List ℕ → Option B} {r : B}
    → next o f ≡ some r
    → (a : A) × (rest : List ℕ) × (o ≡ some (a, rest)) × (f a rest ≡ some r)
next_inv none e = cc
next_inv (some (a, rest)) e = (a, rest, refl, e)

pub checked : {B : Type 0} {t : Bool} (o : Option B) → t ≡ true → (if t then o else none) ≡ o
checked o e = rw e refl

pub checked_inv :
    {B : Type 0} (t : Bool) {o : Option B} {r : B}
    → (if t then o else none) ≡ some r
    → (t ≡ true) × (o ≡ some r)
checked_inv true e = (refl, e)
checked_inv false e = cc
