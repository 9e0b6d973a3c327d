-- ===== src/Peers/Disk.antt =====
-- Core/bootstrapCache.js with its file: the constructor, `addPeer` and `save`. The file holds the list
-- that `JSON.parse` makes of its text; `none` is a file that does not exist.
use reloadjs.Base.{◌≡◌, refl, ap, ◌∙◌, Bool, true, false, List, [], ◌∷◌, Option, none, some}
use reloadjs.Node.{Peer}
use reloadjs.Peers.{add_peer}

pub record BootstrapCache : Type 0 where
  pub cache : List Peer
  pub exists : Bool
  pub file : Option (List Peer)

-- The constructor; a list is never equal to a new object, so what is read is kept.
unfoldable pub open_cache : Option (List Peer) → BootstrapCache
open_cache none = record { cache = []; exists = false; file = some [] }
open_cache (some peers) = record { cache = peers; exists = true; file = some peers }

-- `save`; a file that was removed is not made again.
unfoldable pub save : BootstrapCache → BootstrapCache
save c = record c { file = elim c.file [ none ↦ none | some old ↦ some c.cache ] }

-- `addPeer`.
unfoldable pub add_and_save : Peer → BootstrapCache → BootstrapCache
unfolding save
add_and_save peer c = save (record c { cache = add_peer peer c.cache })

unfoldable pub add_each : List Peer → BootstrapCache → BootstrapCache
unfolding add_and_save
add_each [] c = c
add_each (peer ∷ peers) c = add_each peers (add_and_save peer c)

-- What is on disk is what the cache holds.
IsSaved : BootstrapCache → Type 0
IsSaved c = c.file ≡ some c.cache

add_and_save-IsSaved :
    (peer : Peer) (c : BootstrapCache) → IsSaved c → IsSaved (add_and_save peer c)
unfolding IsSaved add_and_save save
add_and_save-IsSaved peer c h = rw h refl

add_each-IsSaved : (peers : List Peer) (c : BootstrapCache) → IsSaved c → IsSaved (add_each peers c)
unfolding add_each
add_each-IsSaved [] c h = h
add_each-IsSaved (peer ∷ peers) c h =
    add_each-IsSaved peers (add_and_save peer c) (add_and_save-IsSaved peer c h)

open_cache-IsSaved : (file : Option (List Peer)) → IsSaved (open_cache file)
unfolding IsSaved open_cache
open_cache-IsSaved none = refl
open_cache-IsSaved (some peers) = refl

-- A peer that starts again finds the bootstrap peers that it had added before, in their order, also if
-- there was no file at first.
pub open_cache-add_each :
    (file : Option (List Peer)) (peers : List Peer)
    → (open_cache (add_each peers (open_cache file)).file).cache
      ≡ (add_each peers (open_cache file)).cache
unfolding IsSaved
open_cache-add_each file peers =
    ap (λ (x : Option (List Peer)). (open_cache x).cache)
      (add_each-IsSaved peers (open_cache file) (open_cache-IsSaved file))
    ∙ unfold open_cache in refl
