-- ===== src/Bootstrap/Retries.antt =====
-- How often `connect` of Core/bootstrap.js calls a peer, and to how many it attaches.
use reloadjs.Base.{
  ℕ, zero, suc, ◌+◌, ◌≤◌, ◌≡◌, refl, ltb, inl, inr, List, [], ◌∷◌, ◌++◌, Option, none, some, arith,
  All, Text, Bool-cases, if◌then◌else◌, ◌==◌, map,
}
use reloadjs.Bootstrap.{
  Address, Candidate, Sent, attached_to, close_sent, Bootstrap, first_call, connect, change, retry,
  on_error, call_again, on_timer, call_back,
}

-- The callbacks of the sockets and timers of `connect`, in any order.
pub data Step (s : Bootstrap) : Bootstrap → Type 0 where
  failed : (i : ℕ) → Step s (on_error i s)
  fired : (i : ℕ) → Step s (on_timer i s)
  connected : (own addr : Text) → Step s (call_back own addr s)

pub data Run (list : List (Option Address)) : Bootstrap → Type 0 where
  started : Run list (connect list)
  went_on : {s s' : Bootstrap} → Run list s → Step s s' → Run list s'

-- How many attach requests were sent.
pub attach_count : List Sent → ℕ
attach_count [] = 0
attach_count (attached_to addr ∷ rest) = suc (attach_count rest)
attach_count (close_sent addr ∷ rest) = attach_count rest

-- Each call but the first has raised the counter, which stays below 7.
IsLimited : Candidate → Type 0
IsLimited c = (c.calls + c.waiting ≤ c.test) × (c.test ≤ 6)

All-change :
    (i : ℕ) (f : Candidate → Candidate) (cs : List Candidate)
    → ((c : Candidate) → IsLimited c → IsLimited (f c))
    → All IsLimited cs
    → All IsLimited (change i f cs)
unfolding change
All-change i f [] k h = tt
All-change zero f (c ∷ cs) k h = (k c h.0, h.1)
All-change (suc i) f (c ∷ cs) k h = (h.0, All-change i f cs k h.1)

retry-IsLimited : (c : Candidate) → IsLimited c → IsLimited (retry c)
unfolding retry IsLimited
retry-IsLimited c h = elim (Bool-cases (ltb c.test 6)) [
  | inl few ↦ rw few (omega (arith, h.0), ground (arith, few))
  | inr many ↦ rw many h
]

call_again-IsLimited : (c : Candidate) → IsLimited c → IsLimited (call_again c)
unfolding call_again IsLimited
call_again-IsLimited c h = elim (Bool-cases (c.waiting == 0)) [
  | inl idle ↦ rw idle h
  | inr due ↦ rw due (ground (arith, due, h.0), h.1)
]

first_call-IsLimited : (a : Option Address) → IsLimited (first_call a)
unfolding first_call IsLimited
first_call-IsLimited none = (omega arith, omega arith)
first_call-IsLimited (some a) = (omega arith, omega arith)

first_calls : (list : List (Option Address)) → All IsLimited (map first_call list)
first_calls [] = tt
first_calls (a ∷ list) = (first_call-IsLimited a, first_calls list)

attach_count-append :
    (xs ys : List Sent) → attach_count (xs ++ ys) ≡ attach_count xs + attach_count ys
unfolding attach_count
attach_count-append [] ys = omega arith
attach_count-append (attached_to addr ∷ xs) ys = omega (arith, attach_count-append xs ys)
attach_count-append (close_sent addr ∷ xs) ys = attach_count-append xs ys

IsSingle : Bootstrap → Type 0
IsSingle s = attach_count s.sent ≡ (if s.is_connected then 1 else 0)

IsCareful : Bootstrap → Type 0
IsCareful s = All IsLimited s.candidates × IsSingle s

Step-IsCareful : {s s' : Bootstrap} → Step s s' → IsCareful s → IsCareful s'
unfolding IsCareful IsSingle on_error on_timer call_back attach_count
Step-IsCareful {s} (failed i) (h, k) = elim (Bool-cases s.is_connected) [
  | inl done ↦ rw (done, on_error) (h, (rw done at k))
  | inr alone ↦
      rw (alone, on_error) (All-change i retry s.candidates retry-IsLimited h, (rw alone at k))
]
Step-IsCareful {s} (fired i) (h, k) =
    (All-change i call_again s.candidates call_again-IsLimited h, k)
Step-IsCareful {s} (connected own addr) (h, k) = elim (Bool-cases s.is_connected) [
  | inl done ↦
      let one : attach_count s.sent ≡ 1 = (rw done at k) in
      rw (done, call_back)
        (h, omega (arith, one, attach_count-append s.sent (close_sent addr ∷ [])))
  | inr alone ↦
      let nothing : attach_count s.sent ≡ 0 = (rw alone at k) in
      rw (alone, call_back)
        (h, omega (arith, nothing, attach_count-append s.sent (attached_to addr ∷ [])))
]

calls_limited : (cs : List Candidate) → All IsLimited cs → All (λ c. c.calls ≤ 6) cs
unfolding IsLimited
calls_limited [] h = tt
calls_limited (c ∷ cs) h = (omega (arith, h.0.0, h.0.1), calls_limited cs h.1)

careful : {list : List (Option Address)} {s : Bootstrap} → Run list s → IsCareful s
unfolding IsCareful IsSingle connect attach_count
careful {list} started = (first_calls list, refl)
careful (went_on r step) = Step-IsCareful step (careful r)

-- In whatever order the sockets and timers of `connect` call back, each bootstrap peer is called at
-- most six times, and one attach request has been sent if some connection was made, and none before.
pub Run-limits :
    {list : List (Option Address)} {s : Bootstrap}
    → Run list s
    → All (λ c. c.calls ≤ 6) s.candidates
      × (attach_count s.sent ≡ (if s.is_connected then 1 else 0))
unfolding IsCareful IsSingle
Run-limits {s = s} r = let c = careful r in (calls_limited s.candidates c.0, c.1)
