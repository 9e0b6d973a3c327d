-- ===== src/Dispatch/Cache.antt =====
-- The addresses that pings bring.
use reloadjs.Base.{
  ℕ, ◌≤◌, ◌||◌, List, [], ◌∷◌, inl, inr, take, length, Text, codes, same, Bool-cases,
}
use reloadjs.Node.{Peer}
use reloadjs.Peers.Limits.{add_peer_bound}
use reloadjs.Dispatch.{known_address, remember_ips}

-- A bootstrap cache of at most ten peers has at most ten after every ping, however many addresses
-- the ping brings.
pub length-remember_ips :
    (port : ℕ) (ips : List Text) (cache : List Peer)
    → length cache ≤ 10
    → length (remember_ips port ips cache) ≤ 10
unfolding remember_ips
length-remember_ips port [] cache h = h
length-remember_ips port (ip ∷ ips) cache h =
    elim (Bool-cases (known_address ip cache || same (take 4 ip) (codes "127."))) [
      | inl skipped ↦ rw skipped (length-remember_ips port ips cache h)
      | inr new ↦ rw new (
          length-remember_ips port ips _
            (add_peer_bound (record { address = ip; port = port }) cache h))
    ]
