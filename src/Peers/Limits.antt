-- ===== src/Peers/Limits.antt =====
-- The size of the bootstrap cache, the pings that are not answered, and the loop of the shutdown.
use reloadjs.Base.{
  ℕ, zero, suc, ◌+◌, ◌≤◌, ◌≡◌, refl, ◌∙◌, inl, inr, ◌==◌, ◌&&◌, false, true, if◌then◌else◌, map, ap,
  sym, same, List, [], ◌∷◌, Option, none, some, arith, head?, drop, length, length-append, Text,
  Bool-cases, Option-cases,
}
use reloadjs.Transport.Header.{node_id}
use reloadjs.Node.{Node, Connection, Ping, Peer, Sockets, Exec, Outcome, returned, thrown, ◌>>◌}
use reloadjs.Node.Connections.{
  drop_socket, find_socket, forget, remove_found, remove_connection, send_message,
}
use reloadjs.Routing.Updates.Stable.{Stable, send_message-Keeps}
use reloadjs.Peers.{
  add_peer, has_ping, reset_ping, link, drop_pings, timed_out, ping_timeout, leave_body,
  remove_all_from, remove_all,
}

pub add_peer_bound :
    (peer : Peer) (cache : List Peer) → length cache ≤ 10 → length (add_peer peer cache) ≤ 10
unfolding add_peer
add_peer_bound peer cache h = ground (arith, h, length-append cache (peer ∷ []))

length-drop_socket : (s : ℕ) (cs : List Connection) → length (drop_socket s cs) ≤ length cs
unfolding drop_socket
length-drop_socket s [] = omega arith
length-drop_socket s (c ∷ cs) = ground (arith, length-drop_socket s cs)

abbrev AtMost : ℕ → Node → Type 0
AtMost b n = length n.connections ≤ b

remove_found-AtMost :
    (b s : ℕ) (found : Option Connection) (n : Node)
    → AtMost b n
    → AtMost b (remove_found s found n)
unfolding remove_found
remove_found-AtMost b s none n h = h
remove_found-AtMost b s (some c) n h = omega (arith, h, length-drop_socket s n.connections)

remove_connection-AtMost :
    (b : ℕ) (s : Option ℕ) (n : Node) → AtMost b n → AtMost b (remove_connection s n)
unfolding remove_connection
remove_connection-AtMost b none n h = h
remove_connection-AtMost b (some s) n h = remove_found-AtMost b s (find_socket s n.connections) n h

AtMost-Stable : (b : ℕ) → Stable (AtMost b) (λ _. Unit {0})
AtMost-Stable b = record {
  written = λ n d h. h;
  removed = remove_connection-AtMost b;
  added = λ id sdp now n _ h. h;
  known = λ id n h k. tt;
}

drop-none : {A : Type 0} (i : ℕ) (xs : List A) → length xs ≤ i → head? (drop i xs) ≡ none
drop-none zero [] h = refl
drop-none zero (x ∷ xs) h = absurd (omega (arith, h))
drop-none (suc i) [] h = refl
drop-none (suc i) (x ∷ xs) h = drop-none i xs (omega (arith, h))

-- Two continuations that agree where the first part leads agree behind it.
then-same :
    {A : Type 0} (P : Node → Type 0) (m : Exec Node A) (f g : Exec Node Unit) (n : Node)
    → ((n' : Node) → P n' → f n' ≡ g n')
    → P (m n).1
    → (m >> f) n ≡ (m >> g) n
then-same {A = A} P m f g n h p = go (m n).0 refl
  where
    go : (r : Outcome A) → (m n).0 ≡ r → (m >> f) n ≡ (m >> g) n
    go (returned a) e = rw e (h (m n).1 p)
    go thrown e = rw e refl

remove_all_from-over :
    (env : Sockets) (rounds i : ℕ) (n : Node)
    → length n.connections ≤ i
    → remove_all_from env rounds i n ≡ (returned tt, n)
unfolding remove_all_from
remove_all_from-over env zero i n h = refl
remove_all_from-over env (suc rounds) i n h = rw (drop-none i n.connections h, remove_all_from) refl

remove_all_from-enough :
    (env : Sockets) (rounds more i : ℕ) (n : Node)
    → length n.connections ≤ rounds + i
    → rounds ≤ more
    → remove_all_from env more i n ≡ remove_all_from env rounds i n
unfolding remove_all_from
remove_all_from-enough env zero more i n h k = remove_all_from-over env more i n (omega (arith, h))
remove_all_from-enough env (suc rounds) zero i n h k = absurd (omega (arith, k))
remove_all_from-enough env (suc rounds) (suc more) i n h k =
    elim (Option-cases (head? (drop i n.connections))) [
      | inl over ↦ rw (over, remove_all_from) refl
      | inr (c, here) ↦
          rw (here, remove_all_from)
            (then-same (AtMost (rounds + suc i))
              (send_message env (some c.socket) (leave_body n c.id) (node_id c.id ∷ []))
              (remove_all_from env more (suc i)) (remove_all_from env rounds (suc i)) n
              (λ n' a. remove_all_from-enough env rounds more (suc i) n' a (omega (arith, k)))
              ((send_message-Keeps (AtMost-Stable (rounds + suc i)) env (some c.socket)
                  (leave_body n c.id) (node_id c.id ∷ [])).at
                n (omega (arith, h))))
    ]

-- The loop of `removeAll` ends within as many rounds as there are connections at its start: with
-- more rounds it does the same, whichever writes fail and take connections out on the way.
pub remove_all_rounds :
    (env : Sockets) (rounds : ℕ) (n : Node)
    → length n.connections ≤ rounds
    → remove_all_from env rounds 0 n ≡ remove_all env n
unfolding remove_all
remove_all_rounds env rounds n h =
    remove_all_from-enough env (length n.connections) rounds 0 n (omega arith) h

-- The entries, with so many unanswered pings for a node.
abbrev pings : Text → ℕ → List Ping → List Ping
pings id k = map (λ p. if same p.id id then record p { cpt = k } else p)

timed_out-pings :
    (id : Text) (k : ℕ) (ps : List Ping)
    → timed_out id (pings id k ps) ≡ (has_ping id ps && k + 1 == 5)
unfolding timed_out has_ping
timed_out-pings id k [] = refl
timed_out-pings id k (p ∷ ps) = elim (Bool-cases (same p.id id)) [
  | inl hit ↦ rw (hit, hit, timed_out-pings id k ps) (ground arith)
  | inr miss ↦ rw (miss, miss, timed_out-pings id k ps) refl
]

one_more :
    (id : Text) (k : ℕ) (ps : List Ping)
    → map (λ p. if same p.id id then record p { cpt = p.cpt + 1 } else p) (pings id k ps)
      ≡ pings id (k + 1) ps
one_more id k [] = refl
one_more id k (p ∷ ps) = elim (Bool-cases (same p.id id)) [
  | inl hit ↦ rw (hit, hit, one_more id k ps) refl
  | inr miss ↦ rw (miss, miss, one_more id k ps) refl
]

drop_pings-pings :
    (id : Text) (k : ℕ) (ps : List Ping) → drop_pings id (pings id k ps) ≡ drop_pings id ps
unfolding drop_pings
drop_pings-pings id k [] = refl
drop_pings-pings id k (p ∷ ps) = elim (Bool-cases (same p.id id)) [
  | inl hit ↦ rw (hit, hit, drop_pings-pings id k ps) refl
  | inr miss ↦ rw (miss, miss, drop_pings-pings id k ps) refl
]

-- A timeout that is not the fifth in turn only counts.
wait_once :
    (id : Text) (socket k : ℕ) (ps : List Ping) (n : Node)
    → n.pending_ping ≡ pings id k ps
    → (k + 1 == 5) ≡ false
    → ping_timeout id socket n ≡ record n { pending_ping = pings id (k + 1) ps }
unfolding ping_timeout
wait_once id socket k ps n h e = rw (h, timed_out-pings id k ps, e, one_more id k ps) (ground arith)

wait_last :
    (id : Text) (socket : ℕ) (ps : List Ping) (n : Node)
    → n.pending_ping ≡ pings id 4 ps
    → has_ping id ps ≡ true
    → ping_timeout id socket n
      ≡ record (remove_connection (some socket) n) { pending_ping = drop_pings id ps }
unfolding ping_timeout
wait_last id socket ps n h known =
    rw (h, timed_out-pings id 4 ps, known, drop_pings-pings id 4 ps) refl

-- Where the last ping to a node was answered (its entries, of which there is at least one, are reset;
-- those of other nodes are any) and the socket is that of its connection: four timeouts in turn change
-- nothing but the count of its pings. The fifth one takes the connection out of the connections, the
-- node out of the routing table, the successors and the predecessors, and its entries out of the
-- pings, and changes nothing else.
pub ping_timeout_fifth :
    (id : Text) (socket : ℕ) (ps : List Ping) (n : Node)
    → n.pending_ping ≡ reset_ping id ps
    → has_ping id ps ≡ true
    → find_socket socket n.connections ≡ some (link id socket)
    → (let wait : Node → Node = ping_timeout id socket in
        let four : Node = wait (wait (wait (wait n))) in
        (four ≡ record n { pending_ping = four.pending_ping })
        × (drop_pings id four.pending_ping ≡ drop_pings id ps)
        × (wait four ≡ record n {
          table = forget id n.table;
          connections = drop_socket socket n.connections;
          pending_ping = drop_pings id ps;
        }))
unfolding reset_ping remove_connection remove_found
ping_timeout_fifth id socket ps n h known found =
    let counted : ℕ → Node = λ k. record n { pending_ping = pings id k ps } in
    let one = wait_once id socket 0 ps n h refl in
    let two = ap (ping_timeout id socket) one ∙ wait_once id socket 1 ps (counted 1) refl refl in
    let three = ap (ping_timeout id socket) two ∙ wait_once id socket 2 ps (counted 2) refl refl in
    let four = ap (ping_timeout id socket) three ∙ wait_once id socket 3 ps (counted 3) refl refl in
    let last = wait_last id socket ps (counted 4) refl known in
    (
      four ∙ ap (λ (m : Node). record n { pending_ping = m.pending_ping }) (sym four),
      ap (λ (m : Node). drop_pings id m.pending_ping) four ∙ drop_pings-pings id 4 ps,
      ap (ping_timeout id socket) four ∙ last ∙ rw found refl,
    )
