-- ===== src/Forwarding/Hops.antt =====
-- A message on its way through several peers.
use mathlib.Core.List.{reverse-append}
use mathlib.Core.Path.{subst}
use reloadjs.Base.{
  ℕ, ◌+◌, ◌≤◌, ◌≡◌, ◌≢◌, refl, sym, ap, ◌∙◌, ◌⊎◌, inl, inr, List, [], ◌∷◌, ◌++◌, map, reverse,
  arith, append_assoc, append-nil, length, All, Text,
}
use reloadjs.Transport.Header.{RoutableId, node_id, Header, Settings, new_response_message}
use reloadjs.Node.{Node, Effect, forward, Sockets}
use reloadjs.Forwarding.{
  Verdict, dropped, delivered, failed, forwarded, processed, verdict, handle_forwarding,
}
use reloadjs.Forwarding.Verdicts.{
  verdict-forwarded, IsNextOf, Forwards, handle_forwarding-OnlyForwards, handle_forwarding_silent,
}

abbrev pub In : Effect → List Effect → Type 0
In e [] = ⊥
In e (x ∷ xs) = (x ≡ e) ⊎ In e xs

-- The peers of the path handle the message in turn, each from a state in which it has written
-- nothing, and what one of them writes is what the next one gets.
pub data Travel (initial_ttl : ℕ) : List Text → Header → Header → Type 0 where
  arrived : {h : Header} → Travel initial_ttl [] h h
  passed :
      {path : List Text} {h h' : Header} (g : Header) (env : Sockets) (n : Node) (s : ℕ)
      → n.done ≡ []
      → In (forward s g) (handle_forwarding initial_ttl env h n).1.done
      → Travel initial_ttl path g h'
      → Travel initial_ttl (n.local ∷ path) h h'

Forwards-In :
    (local : Text) (h : Header) (s : ℕ) (g : Header) (es : List Effect)
    → All (Forwards local h) es
    → In (forward s g) es
    → IsNextOf local h g
Forwards-In local h s g [] a i = elim i [ ]
Forwards-In local h s g (e ∷ es) a (inl p) = subst (Forwards local h) p a.0
Forwards-In local h s g (e ∷ es) a (inr i) = Forwards-In local h s g es a.1 i

next_header :
    (initial_ttl : ℕ) (env : Sockets) (h : Header) (n : Node) (s : ℕ) (g : Header)
    → n.done ≡ []
    → In (forward s g) (handle_forwarding initial_ttl env h n).1.done
    → IsNextOf n.local (processed n h) g
next_header initial_ttl env h n s g e i =
    let o = handle_forwarding-OnlyForwards initial_ttl env h n in
    Forwards-In n.local (processed n h) s g o.added o.forwards
      (subst (In (forward s g)) (o.behind ∙ ap (λ (d : List Effect). d ++ o.added) e) i)

is_forwarded :
    (initial_ttl : ℕ) (env : Sockets) (h : Header) (n : Node) (s : ℕ) (g : Header)
    → n.done ≡ []
    → In (forward s g) (handle_forwarding initial_ttl env h n).1.done
    → verdict initial_ttl n h ≡ forwarded
is_forwarded initial_ttl env h n s g e i = go (verdict initial_ttl n h) refl
  where
    silent : verdict initial_ttl n h ≢ forwarded → ⊥
    silent d =
        subst (In (forward s g))
          (ap (λ (m : Node). m.done) (handle_forwarding_silent initial_ttl env h n d) ∙ e) i

    go : (v : Verdict) → verdict initial_ttl n h ≡ v → verdict initial_ttl n h ≡ forwarded
    go forwarded q = q
    go dropped q = absurd (silent (λ p. cc))
    go delivered q = absurd (silent (λ p. cc))
    go failed q = absurd (silent (λ p. cc))

hop_ttl :
    (initial_ttl : ℕ) (env : Sockets) (h : Header) (n : Node) (s : ℕ) (g : Header)
    → n.done ≡ []
    → In (forward s g) (handle_forwarding initial_ttl env h n).1.done
    → (g.ttl + 1 ≡ h.ttl) × (1 ≤ g.ttl) × (h.ttl ≤ initial_ttl)
unfolding processed
hop_ttl initial_ttl env h n s g e i =
    let next = next_header initial_ttl env h n s g e i in
    let bounds = verdict-forwarded initial_ttl n h (is_forwarded initial_ttl env h n s g e i) in
    omega (arith, next.lives, bounds)

-- Every hop costs one of the TTL; and if there was a hop, the last header still has one left and the
-- first one did not have more than the initial TTL. So a message is passed on fewer times than its
-- TTL, and than the initial TTL, whatever the peers are and however they are connected.
pub Travel-ttl :
    {initial_ttl : ℕ} {path : List Text} {h h' : Header}
    → Travel initial_ttl path h h'
    → (h'.ttl + length path ≡ h.ttl) × ((path ≡ []) ⊎ ((1 ≤ h'.ttl) × (h.ttl ≤ initial_ttl)))
Travel-ttl arrived = (omega arith, inl refl)
Travel-ttl {initial_ttl} {h = h} {h' = h'} (passed {path = path} g env n s e i rest) =
    let hop = hop_ttl initial_ttl env h n s g e i in
    let (sum, end) = Travel-ttl rest in (omega (arith, sum, hop), inr (go sum end hop))
  where
    go :
        h'.ttl + length path ≡ g.ttl
        → (path ≡ []) ⊎ ((1 ≤ h'.ttl) × (g.ttl ≤ initial_ttl))
        → (g.ttl + 1 ≡ h.ttl) × (1 ≤ g.ttl) × (h.ttl ≤ initial_ttl)
        → (1 ≤ h'.ttl) × (h.ttl ≤ initial_ttl)
    go sum (inl none_left) hop = omega (arith, ap length none_left)
    go sum (inr more) hop = omega arith

-- The via list grows by the peers of the path, in their order.
pub Travel-via_list :
    {initial_ttl : ℕ} {path : List Text} {h h' : Header}
    → Travel initial_ttl path h h'
    → h'.via_list ≡ h.via_list ++ map node_id path
unfolding processed
Travel-via_list {h = h} arrived = sym (append-nil h.via_list)
Travel-via_list {initial_ttl} {h = h} {h' = h'} (passed {path = path} g env n s e i rest) =
    let next = next_header initial_ttl env h n s g e i in
    Travel-via_list rest
    ∙ ap (λ (via : List RoutableId). via ++ map node_id path) next.passed
    ∙ append_assoc h.via_list (node_id n.local ∷ []) (map node_id path)

-- The answer to a message that came over a path is sent back over that path: its destinations are
-- the peers of the path from the last to the first, and then the via list that the message started
-- with, also from its end.
pub response_returns :
    {initial_ttl : ℕ} {path : List Text} {h h' : Header} (conf : Settings) (local : Text)
    → Travel initial_ttl path h h'
    → (new_response_message conf local h').destination_list
      ≡ reverse (map node_id path) ++ reverse h.via_list
unfolding new_response_message
response_returns {path = path} {h = h} conf local t =
    rw (Travel-via_list t) (reverse-append h.via_list (map node_id path))
