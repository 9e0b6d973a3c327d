-- ===== src/Config/Overlay.antt =====
-- How an overlay is loaded: `parseConfig` and `checkOverlayValidity` of Core/instance.js, and
-- `checkOverlay` of Core/peer.js. The loading of certificates, and the identity that is read or made,
-- are parameters; log lines are left out.
use reloadjs.Base.{
  ℕ, zero, suc, ◌+◌, ◌*◌, ◌==◌, ltb, Bool, true, false, ◌&&◌, List, [], ◌∷◌, Option, none, some,
  map, if◌then◌else◌, length, keep, drop, head?, Text, codes, same,
}
use reloadjs.Config.Elements.{Element, Section, Root, raw_attribute, attribute, last_named, named}
use reloadjs.Config.Values.{Value, rules, default_config, apply_rules}

-- The address and the port of a bootstrap node.
unfoldable pub bootstrap_node : Element → Option Text × Text
unfolding attribute raw_attribute
bootstrap_node e = (
  raw_attribute (codes "address") e.attributes,
  elim (attribute (codes "port") e.attributes) [ none ↦ codes "6084" | some port ↦ port ],
)

-- Where the signature of the configuration is looked for: at the text of its index with a 1 behind
-- it, which is no index for the first section.
unfoldable pub has_signature : ℕ → List Section → Bool
has_signature zero sections = false
has_signature (suc k) sections = ltb (suc k * 10 + 1) (length sections)

unfoldable pub same_name : Option Text → Option Text → Bool
same_name none none = true
same_name (some a) (some b) = same a b
same_name none (some b) = false
same_name (some a) none = false

-- The loop that looks for it, from one index on, with the sections from there on.
unfoldable pub find_signature : List Section → Option Text → ℕ → List Section → Text → Text
unfolding has_signature same_name raw_attribute
find_signature all instance_name k [] found = found
find_signature all instance_name k (s ∷ rest) found =
    find_signature all instance_name (suc k) rest (
      if same_name (raw_attribute (codes "instance-name") s.attributes) instance_name
        && has_signature k all
      then elim (head? rest) [ none ↦ found | some next ↦ next.content ]
      else found)

-- What the program finds outside of the file: whether a certificate can be loaded, whether the local
-- configuration is forced, and whether there is an identity on disk or one can be made.
pub record Outside : Type 0 where
  pub loads : Text → Bool
  pub force_local : Bool
  pub has_identity : Bool

-- An overlay that is loaded.
pub record Instance : Type 0 where
  pub instance_name : Option Text
  pub sequence : Text
  pub signature : Text
  pub config : List (Text × Value)
  pub root_cert : List Text
  pub bootstrap_nodes : List (Option Text × Text)
  pub bad_nodes : List Text
  pub permitted : Bool
  pub digest : Option Text

-- How `parseConfig` ends: early, with the same result as after loading; by an exception; by the end of
-- the program; or with all globals set.
pub data Loading : Type 0 where
  gave_up threw exited : Loading
  loaded : Instance → Loading

unfoldable pub all_load : (Text → Bool) → List Element → Bool
all_load loads [] = true
all_load loads (e ∷ es) = loads e.content && all_load loads es

-- The element `self-signed-permitted` and `setGlobals`, which needs the identity that it gives.
unfoldable pub with_identity : Outside → Option Element → Instance → Loading
unfolding raw_attribute
with_identity out none i = threw
with_identity out (some e) i =
    if out.force_local && same e.content (codes "false")
    then exited
    else if out.has_identity
    then loaded (record i {
      permitted = same e.content (codes "true");
      digest = raw_attribute (codes "digest") e.attributes;
    })
    else threw

unfoldable pub read_settings : Outside → List Section → Option Text → Text → Section → Loading
unfolding find_signature apply_rules rules default_config all_load with_identity bootstrap_node
read_settings out all instance_name sequence s =
    if all_load out.loads (named (codes "root-cert") s.children)
    then with_identity out (last_named (codes "self-signed-permitted") s.children) (record {
      instance_name = instance_name;
      sequence = sequence;
      signature = find_signature all instance_name 0 all [];
      config = apply_rules s.children rules default_config;
      root_cert = map (λ e. e.content) (named (codes "root-cert") s.children);
      bootstrap_nodes = map bootstrap_node (named (codes "bootstrap-node") s.children);
      bad_nodes = map (λ e. e.content) (named (codes "bad-node") s.children);
      permitted = false;
      digest = some (codes "sha256");
    })
    else threw

-- Without a value, the method ends early.
abbrev pub need : {A : Type 0} → Option A → (A → Loading) → Loading
need none f = gave_up
need (some a) f = f a

-- `checkOverlayValidity`; an overlay that has expired is only reported.
unfoldable pub check_overlay_validity : Outside → List Section → Option Text → Section → Loading
unfolding read_settings attribute
check_overlay_validity out all instance_name s =
    need (attribute (codes "expiration") s.attributes) (λ expiration.
      need (attribute (codes "instance-name") s.attributes) (λ name.
        need (attribute (codes "sequence") s.attributes)
          (λ sequence. read_settings out all instance_name sequence s)))

-- The answer of the user: an index, something that is no number, or the text of a number below the
-- count of the sections that is no index, such as the empty text, `-1`, `0.5` or `01`.
pub data Answer : Type 0 where
  index : ℕ → Answer
  no_number no_index : Answer

-- `o[name]`: the last section with this instance name, which is not empty.
unfoldable pub section_named : Text → List Section → Option Section
unfolding attribute same_name
section_named name [] = none
section_named name (s ∷ rest) = elim (section_named name rest) [
  | some later ↦ some later
  | none ↦
      if same_name (attribute (codes "instance-name") s.attributes) (some name)
      then some s
      else none
]

unfoldable pub load_section : Outside → List Section → Option Section → Loading
unfolding check_overlay_validity raw_attribute
load_section out all none = threw
load_section out all (some s) =
    check_overlay_validity out all (raw_attribute (codes "instance-name") s.attributes) s

-- One of many configurations: by the name of the command line, or else by the answer; an index that
-- is too large stands for the first one.
unfoldable pub choose_section : Outside → Option Text → Answer → List Section → Loading
unfolding section_named load_section check_overlay_validity
choose_section out (some name) answer all =
    need (section_named name all) (λ s. check_overlay_validity out all (some name) s)
choose_section out none no_number all = load_section out all (head? all)
choose_section out none no_index all = threw
choose_section out none (index k) all =
    load_section out all (head? (if ltb k (length all) then drop k all else all))

unfoldable pub is_configuration : Section → Bool
is_configuration s = same s.name (codes "configuration")

-- By the number of configurations; the only one is taken to be the first section.
unfoldable pub choose_count : Outside → Option Text → Answer → List Section → ℕ → Loading
unfolding choose_section load_section
choose_count out overlay_name answer all count =
    if count == 0
    then gave_up
    else if ltb 1 count
    then choose_section out overlay_name answer all
    else load_section out all (head? all)

-- `parseConfig`; namespaces that are not known are only reported.
unfoldable pub parse_config : Outside → Option Text → Answer → Root → Loading
unfolding attribute choose_count is_configuration
parse_config out overlay_name answer root =
    need (attribute (codes "xmlns") root.attributes) (λ xmlns.
      choose_count out overlay_name answer root.children
        (length (keep is_configuration root.children)))

-- Whether `checkOverlay` starts the services: the result of `parseConfig` is undefined in each case.
unfoldable pub starts_services : Loading → Bool
starts_services gave_up = true
starts_services threw = false
starts_services exited = false
starts_services (loaded i) = true
