-- ===== src/Identity/Own.antt =====
-- Whether the id that others read in the certificate of a peer is the id that the peer goes by.
use reloadjs.Base.{
  ℕ, zero, suc, ◌≤◌, ◌≡◌, ◌≢◌, ◌↔◌, refl, ap, ◌∙◌, append-nil, ltb, true, List, [], ◌∷◌, ◌++◌,
  Option, none, some, some_inv, length, take, head?, Text, same_iff, arith, Bool-cases, inl, inr,
}
use reloadjs.Base.Unique.{length-take-le}
use reloadjs.Identity.{
  Keys, Forge, IsForge, node_ids, is_given, is_multiple, single_id, all_ids, joined_ids, Identity,
  generate, saved_identity, save_identity,
}

take_short : (n : ℕ) (t : Text) → length t ≤ n → take n t ≡ t
take_short zero [] h = refl
take_short zero (c ∷ t) h = absurd (omega arith)
take_short (suc n) [] h = refl
take_short (suc n) (c ∷ t) h = ap (λ x. c ∷ x) (take_short n t (omega arith))

take-append : (n : ℕ) (t u : Text) → length t ≡ n → take n (t ++ u) ≡ t
take-append zero [] u h = refl
take-append zero (c ∷ t) u h = absurd (omega arith)
take-append (suc n) [] u h = absurd (omega arith)
take-append (suc n) (c ∷ t) u h = ap (λ x. c ∷ x) (take-append n t u (omega arith))

length-take : (n : ℕ) (t : Text) → n ≤ length t → length (take n t) ≡ n
length-take zero t h = refl
length-take (suc n) [] h = absurd (omega arith)
length-take (suc n) (c ∷ t) h = ap (λ x. suc x) (length-take n t (omega arith))

-- A first id of the full length.
abbrev pub HasFirst : ℕ → List Text → Type 0
HasFirst len ids = (first : Text) × (head? ids ≡ some first) × (length first ≡ len)

first_of_joined :
    (len : ℕ) (ids : List Text) (first : Text)
    → head? ids ≡ some first
    → length first ≡ len
    → take len (joined_ids ids) ≡ first
unfolding joined_ids
first_of_joined len [] first found full = cc
first_of_joined len (id ∷ ids) first found full =
    let same_id = some_inv found in rw same_id (take-append len first (joined_ids ids) full)

module _ (forge : Forge) (keys : Keys) (len : ℕ) where
  single-HasFirst :
      (t : Text) → len ≤ length (forge.sha1_hex t) → HasFirst len (take len (forge.sha1_hex t) ∷ [])
  single-HasFirst t long = (_, refl, length-take len (forge.sha1_hex t) long)

  node_ids-HasFirst :
      (updated : Text) (i count : ℕ)
      → ((t : Text) → len ≤ length (forge.sha1_hex t))
      → ltb 1 count ≡ true
      → HasFirst len (node_ids forge keys len updated i count)
  unfolding node_ids
  node_ids-HasFirst updated i zero long many = cc
  node_ids-HasFirst updated i (suc count) long many =
      (_, refl, length-take len (forge.sha1_hex _) (long _))

  all_ids-HasFirst :
      (count : Option ℕ)
      → ((t : Text) → len ≤ length (forge.sha1_hex t))
      → HasFirst len (all_ids forge keys len count none)
  unfolding all_ids single_id is_given is_multiple
  all_ids-HasFirst none long = single-HasFirst keys.public_pem (long keys.public_pem)
  all_ids-HasFirst (some count) long = elim (Bool-cases (ltb 1 count)) [
    | inl many ↦ rw many (node_ids-HasFirst [] 0 count long many)
    | inr few ↦ rw few (single-HasFirst keys.public_pem (long keys.public_pem))
  ]

given_ids :
    (forge : Forge) (keys : Keys) (len : ℕ) (count : Option ℕ) (id : Text)
    → id ≢ []
    → all_ids forge keys len count (some id) ≡ id ∷ []
unfolding all_ids single_id is_given
given_ids forge keys len none id proper = ground (arith, same_iff id [], proper)
given_ids forge keys len (some count) id proper = ground (arith, same_iff id [], proper)

-- With digests that are long enough for an id, and no id in the arguments: the certificate that is made
-- holds the first of the node ids, which has the full length, also where there are many.
pub certificate_id-generate :
    (forge : Forge) (keys : Keys) (len : ℕ) (count : Option ℕ)
    → IsForge forge
    → ((t : Text) → len ≤ length (forge.sha1_hex t))
    → let made = generate forge keys len count none in
      (id : Text) × (head? made.node_ids ≡ some id)
      × (forge.certificate_id made.certificate ≡ some id)
      × (length id ≡ len)
unfolding generate
certificate_id-generate forge keys len count lawful long =
    let (first, found, full) = all_ids-HasFirst forge keys len count long in
    (
      first,
      found,
      lawful.id_of keys _
          ∙ ap some (first_of_joined len (all_ids forge keys len count none) first found full),
      full,
    )

-- With an id in the arguments, that is not empty, the certificate holds the id that the peer goes by
-- exactly if it is no longer than the length of node ids; from a longer one it holds the beginning.
pub certificate_id-given_iff :
    (forge : Forge) (keys : Keys) (len : ℕ) (count : Option ℕ) (id : Text)
    → IsForge forge
    → id ≢ []
    → let made = generate forge keys len count (some id) in
      (made.node_ids ≡ id ∷ [])
      × ((forge.certificate_id made.certificate ≡ some id) ↔ (length id ≤ len))
unfolding generate joined_ids
certificate_id-given_iff forge keys len count id lawful proper =
    let ids = given_ids forge keys len count id proper in
    let of_certificate = lawful.id_of keys (take len id) in
    rw (ids, append-nil id, of_certificate)
      (
        refl,
        (
          (λ e. omega (arith, ap (length {A = ℕ}) (some_inv e), length-take-le len id)),
          λ short. ap some (take_short len id short),
        ),
      )

-- A peer that starts again has the identity that it had, whatever keys are drawn and whatever id the
-- arguments have.
pub saved_identity_again :
    (forge : Forge) (keys keys' : Keys) (len len' : ℕ) (count count' : Option ℕ)
    (given given' : Option Text) (file : Option Identity)
    → saved_identity forge keys' len' count' given' (save_identity forge keys len count given file)
      ≡ saved_identity forge keys len count given file
unfolding saved_identity save_identity
saved_identity_again forge keys keys' len len' count count' given given' file = refl
