-- ===== src/Config/Values.antt =====
-- The preset values of the constructor of Core/instance.js, and what `checkOverlayValidity` makes of
-- the elements of a configuration.
use reloadjs.Base.{
  ℕ, Bool, true, false, List, [], ◌∷◌, Option, none, some, if◌then◌else◌, Text, codes, same,
}
use reloadjs.Config.Elements.{Element, last_named}

-- A value of the configuration: the preset ones, and a text that is kept as it is, made a number by
-- `Number`, or compared with `true`.
pub data Value : Type 0 where
  number : ℕ → Value
  flag : Bool → Value
  text number_of : Text → Value
  texts : List Text → Value
  nothing : Value

abbrev pub is_true : Text → Value
is_true content = flag (same content (codes "true"))

-- An element, the key of the configuration that it sets, and how its content is read.
pub record Rule : Type 0 where
  pub element : Text
  pub key : Text
  pub reads : Text → Value

abbrev rule : Text → Text → (Text → Value) → Rule
rule element key reads = record { element = element; key = key; reads = reads }

-- The settings of one element, in the order in which they are looked for.
unfoldable pub rules : List Rule
rules =
    rule (codes "topology-plug-in") (codes "topology-plug-in") text
    ∷ rule (codes "node-id-length") (codes "node-id-length") text
    ∷ rule (codes "enrollment-server") (codes "enrollment-server") text
    ∷ rule (codes "turn-density") (codes "turn-density") number_of
    ∷ rule (codes "clients-permitted") (codes "clients-permitted") is_true
    ∷ rule (codes "no-ice") (codes "no-ice") text
    ∷ rule (codes "chord:chord-update-interval") (codes "chord-update-interval") number_of
    ∷ rule (codes "chord:chord-ping-interval") (codes "chord-ping-interval") number_of
    ∷ rule (codes "shared-secret") (codes "shared-secret") text
    ∷ rule (codes "max-message-size") (codes "max-message-size") number_of
    ∷ rule (codes "initial-ttl") (codes "initial-ttl") number_of
    ∷ rule (codes "overlay-reliability-timer") (codes "overlay-reliability-timer") number_of
    ∷ rule (codes "kind-signer") (codes "kind-signer") text
    ∷ rule (codes "configuration-signer") (codes "configuration-signer") text
    ∷ rule (codes "mandatory-extension") (codes "mandatory-extension") text
    ∷ []

-- The configuration of the constructor, but for the keys that are fields of `Instance`, and
-- required-kinds.
unfoldable pub default_config : List (Text × Value)
default_config =
    (codes "topology-plug-in", text (codes "CHORD-RELOAD"))
    ∷ (codes "node-id-length", number 16)
    ∷ (codes "enrollment-server", texts (codes "https://" ∷ []))
    ∷ (codes "turn-density", number 1)
    ∷ (codes "clients-permitted", flag true)
    ∷ (codes "no-ice", flag false)
    ∷ (codes "chord-update-interval", number 200)
    ∷ (codes "chord-ping-interval", number 20)
    ∷ (codes "chord-reactive", flag true)
    ∷ (codes "shared-secret", text [])
    ∷ (codes "max-message-size", number 5000)
    ∷ (codes "initial-ttl", number 100)
    ∷ (codes "overlay-reliability-timer", number 3000)
    ∷ (codes "overlay-link-protocol", text (codes "TLS"))
    ∷ (codes "kind-signer", nothing)
    ∷ (codes "configuration-signer", nothing)
    ∷ (codes "mandatory-extension", text [])
    ∷ []

-- `config[key]`, and its assignment.
unfoldable pub lookup : Text → List (Text × Value) → Option Value
lookup key [] = none
lookup key ((k, v) ∷ rest) = let later = lookup key rest in if same k key then some v else later

unfoldable pub assign : Text → Value → List (Text × Value) → List (Text × Value)
assign key value [] = (key, value) ∷ []
assign key value ((k, v) ∷ rest) =
    let later = assign key value rest in if same k key then (k, value) ∷ rest else (k, v) ∷ later

unfoldable pub apply_rule : List Element → Rule → List (Text × Value) → List (Text × Value)
unfolding last_named assign
apply_rule elements r config = elim (last_named r.element elements) [
  | none ↦ config
  | some e ↦ assign r.key (r.reads e.content) config
]

unfoldable pub apply_rules : List Element → List Rule → List (Text × Value) → List (Text × Value)
unfolding apply_rule
apply_rules elements [] config = config
apply_rules elements (r ∷ rs) config = apply_rules elements rs (apply_rule elements r config)
