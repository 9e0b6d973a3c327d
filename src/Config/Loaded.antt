-- ===== src/Config/Loaded.antt =====
-- What Core/instance.js asks of an overlay that it loads, and what it never finds.
use mathlib.Core.List.{Memᴰ}
use reloadjs.Base.{
  ℕ, zero, suc, ◌<◌, ◌≡◌, refl, sym, ap, ◌∙◌, ltb, ◌==◌, Bool, true, false, ◌&&◌, inl, inr, List,
  [], ◌∷◌, Option, none, some, arith, if◌then◌else◌, length, head?, drop, keep, Text, codes, same,
  Bool-cases, Option-cases, some_inv,
}
use reloadjs.Config.Elements.{Element, Section, Root, attribute, raw_attribute, last_named, named}
use reloadjs.Config.Overlay.{
  need, choose_count, has_signature, same_name, find_signature, Outside, Instance, Loading, threw,
  exited, loaded, all_load, with_identity, read_settings, check_overlay_validity, Answer, index,
  no_number, no_index, section_named, load_section, choose_section, is_configuration, parse_config,
}

no_signature : (k : ℕ) (all : List Section) → length all < 12 → has_signature k all ≡ false
unfolding has_signature
no_signature zero all h = refl
no_signature (suc k) all h = ground (arith, h)

-- In a file with fewer than twelve sections the signature of the overlay is never found.
pub find_signature-few :
    (all : List Section) (name : Option Text) (k : ℕ) (rest : List Section) (found : Text)
    → length all < 12
    → find_signature all name k rest found ≡ found
unfolding find_signature
find_signature-few all name k [] found h = refl
find_signature-few all name k (s ∷ rest) found h =
    elim (Bool-cases (same_name (raw_attribute (codes "instance-name") s.attributes) name)) [
      | inl hit ↦ rw (hit, no_signature k all h) (find_signature-few all name (suc k) rest found h)
      | inr miss ↦ rw miss (find_signature-few all name (suc k) rest found h)
    ]

-- A section that can be loaded, and the instance that is made of it.
pub record IsLoaded (out : Outside) (s : Section) (i : Instance) : Type 0 where
  pub expiration : Text
  pub name : Text
  pub self_signed : Element
  pub has_expiration : attribute (codes "expiration") s.attributes ≡ some expiration
  pub has_name : attribute (codes "instance-name") s.attributes ≡ some name
  pub has_sequence : attribute (codes "sequence") s.attributes ≡ some i.sequence
  pub certificates : all_load out.loads (named (codes "root-cert") s.children) ≡ true
  pub is_permitted : last_named (codes "self-signed-permitted") s.children ≡ some self_signed
  pub not_refused : (out.force_local && same self_signed.content (codes "false")) ≡ false
  pub identity : out.has_identity ≡ true

need_inv :
    {A : Type 0} (o : Option A) {f : A → Loading} {i : Instance}
    → need o f ≡ loaded i
    → (a : A) × (o ≡ some a) × (f a ≡ loaded i)
need_inv none e = cc
need_inv (some a) e = (a, refl, e)

unless_inv :
    (t : Bool) {l : Loading} {i : Instance}
    → (if t then l else threw) ≡ loaded i
    → (t ≡ true) × (l ≡ loaded i)
unless_inv true e = (refl, e)
unless_inv false e = cc

refused_inv :
    (t : Bool) {l : Loading} {i : Instance}
    → (if t then exited else l) ≡ loaded i
    → (t ≡ false) × (l ≡ loaded i)
refused_inv true e = cc
refused_inv false e = (refl, e)

loaded_inv : {i j : Instance} → loaded i ≡ loaded j → i ≡ j
loaded_inv e = cc

module _ (out : Outside) (all : List Section) where
  identity_inv :
      (o : Option Element) (i j : Instance)
      → with_identity out o j ≡ loaded i
      → (e : Element) × (o ≡ some e)
        × ((out.force_local && same e.content (codes "false")) ≡ false)
        × (out.has_identity ≡ true)
        × (j.sequence ≡ i.sequence)
  unfolding with_identity
  identity_inv none i j e = cc
  identity_inv (some x) i j e =
      let (allowed, e1) = refused_inv (out.force_local && same x.content (codes "false")) e in
      let (known, e2) = unless_inv out.has_identity e1 in
      (x, refl, allowed, known, ap (λ (u : Instance). u.sequence) (loaded_inv e2))

  check-IsLoaded :
      (name : Option Text) (s : Section) (i : Instance)
      → check_overlay_validity out all name s ≡ loaded i
      → IsLoaded out s i
  unfolding check_overlay_validity read_settings
  check-IsLoaded name s i e =
      let (expiration, has_expiration, e1) =
        need_inv (attribute (codes "expiration") s.attributes) e in
      let (own_name, has_name, e2) = need_inv (attribute (codes "instance-name") s.attributes) e1 in
      let (sequence, has_sequence, e3) = need_inv (attribute (codes "sequence") s.attributes) e2 in
      let (certificates, e4) =
        unless_inv (all_load out.loads (named (codes "root-cert") s.children)) e3 in
      let (x, is_permitted, not_refused, identity, kept) =
        identity_inv (last_named (codes "self-signed-permitted") s.children) i _ e4 in
      record {
        expiration = expiration;
        name = own_name;
        self_signed = x;
        has_expiration = has_expiration;
        has_name = has_name;
        has_sequence = has_sequence ∙ ap some kept;
        certificates = certificates;
        is_permitted = is_permitted;
        not_refused = not_refused;
        identity = identity;
      }

section_named-Mem :
    (name : Text) (all : List Section) (s : Section) → section_named name all ≡ some s → Memᴰ s all
unfolding section_named
section_named-Mem name [] s e = cc
section_named-Mem name (x ∷ rest) s e = elim (Option-cases (section_named name rest)) [
  | inl absent ↦
      let here : (if same_name (attribute (codes "instance-name") x.attributes) (some name)
            then some x
            else none)
          ≡ some s =
        (rw (absent, section_named) at e) in
      Memᴰ.head
        (sym (only (same_name (attribute (codes "instance-name") x.attributes) (some name)) here))
  | inr (y, later) ↦
      let same_one : some y ≡ some s = (rw (later, section_named) at e) in
      Memᴰ.tail (section_named-Mem name rest s (later ∙ same_one))
]
  where
    only : (t : Bool) {x y : Section} → (if t then some x else none) ≡ some y → x ≡ y
    only true h = some_inv h
    only false h = cc

head-Mem : (all : List Section) (s : Section) → head? all ≡ some s → Memᴰ s all
head-Mem [] s e = cc
head-Mem (x ∷ rest) s e = Memᴰ.head (sym (some_inv e))

drop-Mem : (k : ℕ) (all : List Section) (s : Section) → head? (drop k all) ≡ some s → Memᴰ s all
drop-Mem zero all s e = head-Mem all s e
drop-Mem (suc k) [] s e = cc
drop-Mem (suc k) (x ∷ rest) s e = Memᴰ.tail (drop-Mem k rest s e)

module _ (out : Outside) (all : List Section) where
  load_section-IsLoaded :
      (o : Option Section) (i : Instance)
      → load_section out all o ≡ loaded i
      → (s : Section) × (o ≡ some s) × IsLoaded out s i
  unfolding load_section
  load_section-IsLoaded none i e = cc
  load_section-IsLoaded (some s) i e =
      (s, refl, check-IsLoaded out all (raw_attribute (codes "instance-name") s.attributes) s i e)

  choose_section-IsLoaded :
      (name : Option Text) (answer : Answer) (i : Instance)
      → choose_section out name answer all ≡ loaded i
      → (s : Section) × Memᴰ s all × IsLoaded out s i
  unfolding choose_section
  choose_section-IsLoaded (some name) answer i e =
      let (s, found, e1) = need_inv (section_named name all) e in
      (s, section_named-Mem name all s found, check-IsLoaded out all (some name) s i e1)
  choose_section-IsLoaded none no_number i e =
      let (s, first, fine) = load_section-IsLoaded (head? all) i e in
      (s, head-Mem all s first, fine)
  choose_section-IsLoaded none no_index i e = cc
  choose_section-IsLoaded none (index k) i e = elim (Bool-cases (ltb k (length all))) [
    | inl inside ↦
        let (s, first, fine) =
          load_section-IsLoaded (head? (drop k all)) i (rw (inside, choose_section) at e) in
        (s, drop-Mem k all s first, fine)
    | inr outside ↦
        let (s, first, fine) =
          load_section-IsLoaded (head? all) i (rw (outside, choose_section) at e) in
        (s, head-Mem all s first, fine)
  ]

  choose_count-IsLoaded :
      (name : Option Text) (answer : Answer) (count : ℕ) (i : Instance)
      → choose_count out name answer all count ≡ loaded i
      → (s : Section) × Memᴰ s all × IsLoaded out s i
  unfolding choose_count
  choose_count-IsLoaded name answer count i e = elim (Bool-cases (count == 0)) [
    | inl empty ↦ absurd (cc (rw (empty, choose_count) at e))
    | inr any ↦ elim (Bool-cases (ltb 1 count)) [
      | inl many ↦ choose_section-IsLoaded name answer i (rw (any, many, choose_count) at e)
      | inr one ↦
          let (s, first, fine) =
            load_section-IsLoaded (head? all) i (rw (any, one, choose_count) at e) in
          (s, head-Mem all s first, fine)
    ]
  ]

-- An overlay is loaded only from a section of the file that has an expiration date, a name and the
-- sequence, and the element for self-signed certificates; if all its root certificates load, the local
-- configuration does not refuse it, and an identity is there or can be made.
pub parse_config-IsLoaded :
    (out : Outside) (name : Option Text) (answer : Answer) (root : Root) (i : Instance)
    → parse_config out name answer root ≡ loaded i
    → (s : Section) × Memᴰ s root.children × IsLoaded out s i
unfolding parse_config
parse_config-IsLoaded out name answer root i e =
    let (xmlns, known, e1) = need_inv (attribute (codes "xmlns") root.attributes) e in
    choose_count-IsLoaded out root.children name answer
      (length (keep is_configuration root.children)) i e1
