-- ===== src/Tests/Start.antt =====
-- A file of one overlay, the calls of its bootstrap peers, and a table without Chord.
use mathlib.Core.List.{Memᴰ}
use reloadjs.Base.{
  ◌≤◌, ◌≡◌, refl, Text, ◌||◌, take, same_iff, true, false, List, [], ◌∷◌, none, some, arith, All,
  codes, same, if◌then◌else◌,
}
use reloadjs.Bootstrap.{Address, Bootstrap, connect, on_error, on_timer, call_back}
use reloadjs.Bootstrap.Retries.{
  Run, started, went_on, failed, fired, connected, attach_count, Run-limits,
}
use reloadjs.Config.Elements.{Element, Section, Root}
use reloadjs.Config.Values.{
  number, number_of, flag, text, rules, default_config, apply_rules, lookup,
}
use reloadjs.Config.Overlay.{Outside, Instance, loaded, no_number, parse_config, find_signature}
use reloadjs.Config.Settings.{Silent, silent, last, settings_read}
use reloadjs.Config.Loaded.{IsLoaded, parse_config-IsLoaded, find_signature-few}

abbrev first : Address
first = record { address = codes "10.0.0.1"; port = codes "6084" }

-- The call of the one peer fails twice, and the third one succeeds.
abbrev third : Bootstrap
third =
    call_back [] (codes "10.0.0.1")
      (on_timer 0 (on_error 0 (on_timer 0 (on_error 0 (connect (some first ∷ []))))))

third-Run : Run (some first ∷ []) third
third-Run =
    went_on
      (went_on (went_on (went_on (went_on started (failed 0)) (fired 0)) (failed 0)) (fired 0))
      (connected [] (codes "10.0.0.1"))

Run-limits_example :
    All (λ c. c.calls ≤ 6) third.candidates
    × (attach_count third.sent ≡ (if third.is_connected then 1 else 0))
Run-limits_example = Run-limits third-Run

abbrev elements : List Element
elements =
    record { name = codes "initial-ttl"; attributes = []; content = codes "30" }
    ∷ record {
      name = codes "self-signed-permitted";
      attributes = (codes "digest", codes "sha1") ∷ [];
      content = codes "true";
    }
    ∷ record { name = codes "initial-ttl"; attributes = []; content = codes "40" }
    ∷ []

abbrev section : Section
section = record {
  name = codes "configuration";
  attributes =
      (codes "instance-name", codes "overlay")
      ∷ (codes "expiration", codes "2030")
      ∷ (codes "sequence", codes "22")
      ∷ [];
  content = [];
  children = elements;
}

abbrev root : Root
root = record { attributes = (codes "xmlns", codes "urn") ∷ []; children = section ∷ [] }

abbrev outside : Outside
outside = record { loads = λ t. true; force_local = false; has_identity = true }

abbrev instance_of : Instance
instance_of = record {
  instance_name = some (codes "overlay");
  sequence = codes "22";
  signature = [];
  config = apply_rules elements rules default_config;
  root_cert = [];
  bootstrap_nodes = [];
  bad_nodes = [];
  permitted = true;
  digest = some (codes "sha1");
}

root_loaded : parse_config outside none no_number root ≡ loaded instance_of
unfolding parse_config same
root_loaded = refl

parse_config-IsLoaded_example :
    (s : Section) × Memᴰ s root.children × IsLoaded outside s instance_of
parse_config-IsLoaded_example =
    parse_config-IsLoaded outside none no_number root instance_of root_loaded

absent :
    (name : Text)
    → (same (codes "initial-ttl") name || same (codes "self-signed-permitted") name) ≡ false
    → Silent name elements
absent name h =
    ground
      (arith, h, same_iff (codes "initial-ttl") name, same_iff (codes "self-signed-permitted") name)

settings_read_example :
    let setting = λ (key : Text). lookup key (apply_rules elements rules default_config) in
    (setting (codes "initial-ttl") ≡ some (number_of (codes "40")))
    × (setting (codes "max-message-size") ≡ some (number 5000))
    × (setting (codes "chord-update-interval") ≡ some (number 200))
    × (setting (codes "chord-ping-interval") ≡ some (number 20))
    × (setting (codes "clients-permitted") ≡ some (flag true))
    × (setting (codes "topology-plug-in") ≡ some (text (codes "CHORD-RELOAD")))
unfolding same
settings_read_example =
    settings_read elements (some (codes "40")) none none none none none
      (last (take 2 elements)
        (record { name = codes "initial-ttl"; attributes = []; content = codes "40" }) [] refl refl
        tt)
      (silent (absent (codes "max-message-size") refl))
      (silent (absent (codes "chord:chord-update-interval") refl))
      (silent (absent (codes "chord:chord-ping-interval") refl))
      (silent (absent (codes "clients-permitted") refl))
      (silent (absent (codes "topology-plug-in") refl))

find_signature-few_example :
    find_signature (section ∷ section ∷ []) (some (codes "overlay")) 0 (section ∷ section ∷ []) []
    ≡ []
find_signature-few_example =
    find_signature-few (section ∷ section ∷ []) (some (codes "overlay")) 0 (section ∷ section ∷ [])
      [] (omega arith)
