-- ===== src/Config/Settings.antt =====
-- What the configuration holds after `checkOverlayValidity` of Core/instance.js has read the elements.
use reloadjs.Base.{
  ◌≡◌, ◌≢◌, ◌++◌, codes, refl, ap, ◌∙◌, Bool, true, false, not, ◌&&◌, inl, inr, List, [], ◌∷◌,
  Option, none, some, arith, All, Text, same, same_refl, same_iff, Bool-cases, Option-cases,
}
use reloadjs.Config.Elements.{Element, last_named}
use reloadjs.Config.Values.{
  Value, number, number_of, flag, text, is_true, Rule, rules, default_config, lookup, assign,
  apply_rule, apply_rules,
}

lookup-assign-same :
    (key : Text) (v : Value) (c : List (Text × Value)) → lookup key (assign key v c) ≡ some v
unfolding lookup assign
lookup-assign-same key v [] = rw (same_refl key) refl
lookup-assign-same key v ((k, x) ∷ rest) = elim (Bool-cases (same k key)) [
  | inl here ↦ rw (here, lookup, here) refl
  | inr there ↦ rw (there, lookup, there) (lookup-assign-same key v rest)
]

lookup-assign-other :
    (key other : Text) (v : Value) (c : List (Text × Value))
    → same other key ≡ false
    → lookup key (assign other v c) ≡ lookup key c
unfolding lookup assign
lookup-assign-other key other v [] h = rw h refl
lookup-assign-other key other v ((k, x) ∷ rest) h = ground (
  arith,
  h,
  lookup-assign-other key other v rest h,
  same_iff k other,
  same_iff k key,
  same_iff other key,
)

-- What a rule makes of a value.
unfoldable pub ruled : List Element → Rule → Option Value → Option Value
ruled elements r old = elim (last_named r.element elements) [
  | none ↦ old
  | some e ↦ some (r.reads e.content)
]

lookup-apply_rule :
    (elements : List Element) (r : Rule) (c : List (Text × Value))
    → lookup r.key (apply_rule elements r c) ≡ ruled elements r (lookup r.key c)
unfolding apply_rule ruled
lookup-apply_rule elements r c = elim (Option-cases (last_named r.element elements)) [
  | inl absent ↦ rw (absent, apply_rule, ruled) refl
  | inr (e, found) ↦ rw (found, apply_rule, ruled) (lookup-assign-same r.key (r.reads e.content) c)
]

lookup-apply_rule-other :
    (elements : List Element) (r : Rule) (key : Text) (c : List (Text × Value))
    → same r.key key ≡ false
    → lookup key (apply_rule elements r c) ≡ lookup key c
unfolding apply_rule
lookup-apply_rule-other elements r key c h = elim (Option-cases (last_named r.element elements)) [
  | inl absent ↦ rw (absent, apply_rule) refl
  | inr (e, found) ↦ rw (found, apply_rule) (lookup-assign-other key r.key (r.reads e.content) c h)
]

-- No rule of the list has the key.
clear_of : Text → List Rule → Bool
clear_of key [] = true
clear_of key (r ∷ rs) = not (same r.key key) && clear_of key rs

distinct : List Rule → Bool
distinct [] = true
distinct (r ∷ rs) = clear_of r.key rs && distinct rs

lookup-apply_rules-other :
    (elements : List Element) (rs : List Rule) (key : Text) (c : List (Text × Value))
    → clear_of key rs ≡ true
    → lookup key (apply_rules elements rs c) ≡ lookup key c
unfolding apply_rules clear_of
lookup-apply_rules-other elements [] key c h = refl
lookup-apply_rules-other elements (r ∷ rs) key c h =
    lookup-apply_rules-other elements rs key (apply_rule elements r c) (ground (arith, h))
    ∙ lookup-apply_rule-other elements r key c (ground (arith, h))

module _ (elements : List Element) where
  Holds : List (Text × Value) → List (Text × Value) → List Rule → Type 0
  Holds new old = All (λ r. lookup r.key new ≡ ruled elements r (lookup r.key old))

  Holds-before :
      (new old : List (Text × Value)) (first : Rule) (rs : List Rule)
      → clear_of first.key rs ≡ true
      → Holds new (apply_rule elements first old) rs
      → Holds new old rs
  unfolding Holds clear_of
  Holds-before new old first [] h k = tt
  Holds-before new old first (r ∷ rs) h k = (
    k.0
        ∙ ap (ruled elements r) (
            lookup-apply_rule-other elements first r.key old
              (ground (arith, h, same_iff r.key first.key, same_iff first.key r.key))),
    Holds-before new old first rs (ground (arith, h)) k.1,
  )

  apply_rules-Holds :
      (rs : List Rule) (c : List (Text × Value))
      → distinct rs ≡ true
      → Holds (apply_rules elements rs c) c rs
  unfolding Holds apply_rules distinct
  apply_rules-Holds [] c h = tt
  apply_rules-Holds (r ∷ rs) c h = (
    lookup-apply_rules-other elements rs r.key (apply_rule elements r c) (ground (arith, h))
        ∙ lookup-apply_rule elements r c,
    Holds-before (apply_rules elements rs (apply_rule elements r c)) c r rs (ground (arith, h))
        (apply_rules-Holds rs (apply_rule elements r c) (ground (arith, h))),
  )

  -- Each setting of one element holds what the last element of its name says, read as the source reads
  -- it, and its preset value if there is no such element.
  rules_read :
      All
        (λ r.
          lookup r.key (apply_rules elements rules default_config)
          ≡ ruled elements r (lookup r.key default_config))
        rules
  unfolding Holds rules distinct clear_of same
  rules_read = apply_rules-Holds rules default_config refl

-- No element has the name.
abbrev pub Silent : Text → List Element → Type 0
Silent name = All (λ e. e.name ≢ name)

-- What the last element of a name says, if there is one.
pub data Says (name : Text) (elements : List Element) : Option Text → Type 0 where
  silent : Silent name elements → Says name elements none
  last :
      (before : List Element) (e : Element) (after : List Element)
      → elements ≡ before ++ e ∷ after
      → e.name ≡ name
      → Silent name after
      → Says name elements (some e.content)

last_named-Silent : (name : Text) (es : List Element) → Silent name es → last_named name es ≡ none
unfolding last_named
last_named-Silent name [] h = refl
last_named-Silent name (e ∷ es) (other, later) = elim (Bool-cases (same e.name name)) [
  | inl hit ↦ absurd (ground (arith, hit, other, same_iff e.name name))
  | inr miss ↦ rw (last_named-Silent name es later, last_named, miss) refl
]

last_named-behind :
    (name : Text) (before : List Element) (e : Element) (after : List Element)
    → e.name ≡ name
    → Silent name after
    → last_named name (before ++ e ∷ after) ≡ some e
unfolding last_named
last_named-behind name [] e after h k =
    rw (last_named-Silent name after k, last_named, h, same_refl name) refl
last_named-behind name (x ∷ before) e after h k =
    rw (last_named-behind name before e after h k, last_named) refl

-- A text as it is read, or the preset value.
abbrev pub said : (Text → Value) → Value → Option Text → Value
said reads preset none = preset
said reads preset (some content) = reads content

ruled-Says :
    (elements : List Element) (r : Rule) (preset : Value) (o : Option Text)
    → Says r.element elements o
    → ruled elements r (some preset) ≡ some (said r.reads preset o)
unfolding ruled
ruled-Says elements r preset none (silent h) =
    rw (last_named-Silent r.element elements h, ruled) refl
ruled-Says elements r preset _ (last before e after whole h k) =
    rw (whole, last_named-behind r.element before e after h k, ruled) refl

-- For what the last elements of these names say, if there are such elements: the TTL, the largest
-- message size and the intervals of Chord are read as numbers, and are else 100, 5000, 200 and 20;
-- clients are permitted if the text is `true`, and without the element; and the text of the plug-in
-- is kept, and is else CHORD-RELOAD.
pub settings_read :
    (elements : List Element) (ttl size update ping clients plug_in : Option Text)
    → Says (codes "initial-ttl") elements ttl
    → Says (codes "max-message-size") elements size
    → Says (codes "chord:chord-update-interval") elements update
    → Says (codes "chord:chord-ping-interval") elements ping
    → Says (codes "clients-permitted") elements clients
    → Says (codes "topology-plug-in") elements plug_in
    → let setting = λ (key : Text). lookup key (apply_rules elements rules default_config) in
      (setting (codes "initial-ttl") ≡ some (said number_of (number 100) ttl))
      × (setting (codes "max-message-size") ≡ some (said number_of (number 5000) size))
      × (setting (codes "chord-update-interval") ≡ some (said number_of (number 200) update))
      × (setting (codes "chord-ping-interval") ≡ some (said number_of (number 20) ping))
      × (setting (codes "clients-permitted") ≡ some (said is_true (flag true) clients))
      × (setting (codes "topology-plug-in")
          ≡ some (said text (text (codes "CHORD-RELOAD")) plug_in))
unfolding rules default_config lookup same
settings_read elements ttl size update ping clients plug_in a b c d e f =
    let read = rules_read elements in
    (
      read.1.1.1.1.1.1.1.1.1.1.0 ∙ ruled-Says elements _ (number 100) ttl a,
      read.1.1.1.1.1.1.1.1.1.0 ∙ ruled-Says elements _ (number 5000) size b,
      read.1.1.1.1.1.1.0 ∙ ruled-Says elements _ (number 200) update c,
      read.1.1.1.1.1.1.1.0 ∙ ruled-Says elements _ (number 20) ping d,
      read.1.1.1.1.0 ∙ ruled-Says elements _ (flag true) clients e,
      read.0 ∙ ruled-Says elements _ (text (codes "CHORD-RELOAD")) plug_in f,
    )
