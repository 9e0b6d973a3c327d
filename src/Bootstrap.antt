-- ===== src/Bootstrap.antt =====
-- How a peer connects to the overlay: `connect` of Core/bootstrap.js with its retries, and the list of
-- candidates of `initBootstrap` of Core/peer.js.
pub mod Retries
pub mod First
use reloadjs.Base.{
  ℕ, zero, suc, ◌+◌, ◌-◌, ◌==◌, ltb, Bool, true, false, not, ◌&&◌, List, [], ◌∷◌, ◌++◌, Option,
  none, some, map, if◌then◌else◌, Text, same,
}

-- An entry of the list of bootstrap peers; `none` is an entry without a name.
pub record Address : Type 0 where
  pub address : Text
  pub port : Text

-- An entry with its counter `test[i]`, the calls of `connectTo` that were made for it, and the timers
-- that wait to make another one.
pub record Candidate : Type 0 where
  pub name : Option Address
  pub test : ℕ
  pub calls : ℕ
  pub waiting : ℕ

-- What is sent: the attach request over the connection to a candidate, or the text that closes the
-- socket of a candidate.
pub data Sent : Type 0 where
  attached_to close_sent : Text → Sent

pub record Bootstrap : Type 0 where
  pub is_connected : Bool
  pub candidates : List Candidate
  pub turns : List Text
  pub sent : List Sent

-- The list of bootstrap peers: with those of the cache behind it, if there is a cache file and the
-- program is told to use it.
unfoldable pub peer_list :
    Bool → Bool → List (Option Address) → List (Option Address) → List (Option Address)
peer_list exists use_cache nodes cache = if exists && use_cache then nodes ++ cache else nodes

-- One round of the loop of `connect`: no connection is there yet.
unfoldable pub first_call : Option Address → Candidate
first_call none = record { name = none; test = 1; calls = 0; waiting = 0 }
first_call (some a) = record { name = some a; test = 1; calls = 1; waiting = 0 }

unfoldable pub connect : List (Option Address) → Bootstrap
unfolding first_call
connect list = record {
  is_connected = false;
  candidates = map first_call list;
  turns = [];
  sent = [];
}

-- A change of the candidate of one index.
unfoldable pub change : ℕ → (Candidate → Candidate) → List Candidate → List Candidate
change i f [] = []
change zero f (c ∷ cs) = f c ∷ cs
change (suc i) f (c ∷ cs) = c ∷ change i f cs

-- `onError` of a candidate.
unfoldable pub retry : Candidate → Candidate
retry c = if ltb c.test 6 then record c { test = c.test + 1; waiting = c.waiting + 1 } else c

unfoldable pub on_error : ℕ → Bootstrap → Bootstrap
unfolding change retry
on_error i s = if s.is_connected then s else record s { candidates = change i retry s.candidates }

-- The callback of the timer that `onError` starts.
unfoldable pub call_again : Candidate → Candidate
call_again c =
    if c.waiting == 0 then c else record c { calls = c.calls + 1; waiting = c.waiting - 1 }

unfoldable pub on_timer : ℕ → Bootstrap → Bootstrap
unfolding change call_again
on_timer i s = record s { candidates = change i call_again s.candidates }

-- `callBack` of a candidate with this address, for the address of this peer.
unfoldable pub call_back : Text → Text → Bootstrap → Bootstrap
call_back own addr s =
    if s.is_connected then record s { sent = s.sent ++ close_sent addr ∷ [] } else record s {
      is_connected = true;
      turns = if same addr own then s.turns else s.turns ++ addr ∷ [];
      sent = s.sent ++ attached_to addr ∷ [];
    }
