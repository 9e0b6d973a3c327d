-- ===== src/Transport/Content/RoundTrip.antt =====
-- The contents of Transport/messages/content that are read back as they were written.
use mathlib.Core.Path.{subst}
use reloadjs.Base.{
  ℕ, ◌<◌, ◌^◌, ◌≡◌, sym, Option, ◌⊎◌, inl, inr, refl, ◌==◌, Bool, true, false, List, [], ◌++◌, some,
  none, arith, Text, All, ◌∙◌, ltb, if◌then◌else◌,
}
use reloadjs.Transport.Wire.{SmartBuffer, IsSmartBuffer, IsPlain, given, given-some, given-none}
use reloadjs.Transport.Json.{stringify}
use reloadjs.Transport.Json.RoundTrip.{IsAscii, IsPlain-stringify, parse-stringify}
use reloadjs.Transport.Codes.{Decoder, get_decoder}
use reloadjs.Transport.Content.{
  Content, attach_request, attach_answer, join_request, join_answer, leave_answer, update_request,
  leave_request, update_answer, ping_request, ping_answer, error_response, flag, leave_bytes,
  leave_set, value, built, stored, as_read, new_leave_request, write_content, read_set, read_attach,
  read_leave, read_update_answer, read_ping_request, read_ping_answer, decode, read_content,
}

abbrev pub AreAscii : List Text → Type 0
AreAscii = All IsAscii

-- The contents that have a decoder, with texts in ASCII; a leave request is to its successors or
-- predecessors.
abbrev pub IsSound : Content → Type 0
IsSound (attach_request sdp update) = IsPlain sdp
IsSound (attach_answer sdp update) = IsPlain sdp
IsSound (join_request node) = IsPlain (value node)
IsSound join_answer = Unit
IsSound leave_answer = ⊥
IsSound update_request = Unit
IsSound (leave_request type id set) = ((type ≡ 1) ⊎ (type ≡ 2)) × IsPlain id × AreAscii (value set)
IsSound (update_answer predecessors successors start) =
    AreAscii (value predecessors) × AreAscii (value successors) × IsPlain start
IsSound (ping_request ips port) = AreAscii (value ips)
IsSound (ping_answer number time) = IsPlain (value time)
IsSound (error_response type info code) = ⊥

-- The leave requests that a peer makes are of this kind.
pub new_leave_request-IsSound :
    (type : ℕ) (id : Text) (predecessors successors : List Text)
    → (type ≡ 1) ⊎ (type ≡ 2)
    → IsPlain id
    → AreAscii predecessors
    → AreAscii successors
    → (c : Content) × (new_leave_request type id predecessors successors ≡ some c) × IsSound c
unfolding new_leave_request
new_leave_request-IsSound type id predecessors successors known p q r = elim known [
  | inl e ↦ (leave_request 1 id (built successors), rw e refl, (inl refl, p, r))
  | inr e ↦ (leave_request 2 id (built predecessors), rw e refl, (inr refl, p, q))
]

pub built_set :
    (type : ℕ) (set : List Text) → (type ≡ 1) ⊎ (type ≡ 2) → leave_set type (built set) ≡ some set
unfolding leave_set
built_set type set known = ground (arith, known)

pub stored_set :
    (type : ℕ) (set : List Text) → (type ≡ 1) ⊎ (type ≡ 2) → leave_set type (stored set) ≡ none
unfolding leave_set
stored_set type set known = ground (arith, known)

-- Nothing is written of a set that is an array.
unwritten_set :
    {A : Type 0} (f : List Text → Option A) {a : A} (type : ℕ) (set : List Text)
    → (type ≡ 1) ⊎ (type ≡ 2)
    → given (leave_set type (stored set)) f ≡ some a
    → ⊥
unwritten_set f type set known e = cc (e, given-none f (stored_set type set known))

module _ (b : SmartBuffer) (law : IsSmartBuffer b) where
  read_set-stringify :
      (set : List Text) (rest : List ℕ)
      → AreAscii set
      → read_set b (b.string_nt (stringify set) ++ rest) ≡ some (set, rest)
  unfolding read_set
  read_set-stringify set rest h =
      rw (law.string_back (stringify set) (IsPlain-stringify set h) rest)
        (given-some (λ found. some (found, rest)) (parse-stringify set))

  flag_back :
      (update : Bool) (rest : List ℕ)
      → b.read_u8 (b.u8 (flag update) ++ rest) ≡ some (flag update, rest)
  flag_back true rest = law.u8_back 1 (omega arith) rest
  flag_back false rest = law.u8_back 0 (omega arith) rest

  flag-one : (update : Bool) → (flag update == 1) ≡ update
  flag-one true = refl
  flag-one false = refl

  -- The byte of the code picks the decoder of the bytes behind it.
  pub read_content-u8 :
      (n : ℕ) (d : Decoder) (rest : List ℕ)
      → n < 2 ^ 8
      → get_decoder n ≡ some d
      → read_content b (b.u8 n ++ rest) ≡ decode b d rest
  unfolding read_content
  read_content-u8 n d rest h e =
      rw (law.u8_back n h rest) (given-some (λ found. decode b found rest) e)

  read_attach_back :
      (made : Text → Bool → Content) (sdp : Text) (update : Bool) (rest : List ℕ)
      → IsPlain sdp
      → read_attach b made (b.string_nt sdp ++ (b.u8 (flag update) ++ rest))
        ≡ some (made sdp update, rest)
  unfolding read_attach
  read_attach_back made sdp update rest p =
      rw
        (law.string_back sdp p (b.u8 (flag update) ++ rest), flag_back update rest, flag-one update)
        refl

  read_leave_back :
      (type : ℕ) (id : Text) (set : List Text) (rest : List ℕ)
      → IsSound (leave_request type id (built set))
      → read_leave b (b.u8 type ++ (b.string_nt id ++ leave_bytes b type set rest))
        ≡ some (leave_request type id (stored set), rest)
  unfolding read_leave leave_bytes
  read_leave_back type id set rest (known, p, q) = elim known [
    | inl e ↦
        rw
          (
            e,
            law.u8_back 1 (omega arith) (b.string_nt id ++ (b.string_nt (stringify set) ++ rest)),
            law.string_back id p (b.string_nt (stringify set) ++ rest),
            read_set-stringify set rest q,
          )
          refl
    | inr e ↦
        rw
          (
            e,
            law.u8_back 2 (omega arith) (b.string_nt id ++ (b.string_nt (stringify set) ++ rest)),
            law.string_back id p (b.string_nt (stringify set) ++ rest),
            read_set-stringify set rest q,
          )
          refl
  ]

  read_update_answer_back :
      (ps ss : List Text) (start : Text) (rest : List ℕ)
      → IsSound (update_answer (built ps) (built ss) start)
      → read_update_answer b (
          b.string_nt (stringify ps) ++ (b.string_nt (stringify ss) ++ (b.string_nt start ++ rest)))
        ≡ some (update_answer (stored ps) (stored ss) start, rest)
  unfolding read_update_answer
  read_update_answer_back ps ss start rest (p, q, r) =
      rw
        (
          read_set-stringify ps (b.string_nt (stringify ss) ++ (b.string_nt start ++ rest)) p,
          read_set-stringify ss (b.string_nt start ++ rest) q,
          law.string_back start r rest,
        )
        refl

  read_ping_request_back :
      (ips : List Text) (port : ℕ) (rest : List ℕ)
      → AreAscii ips
      → port < 2 ^ 32
      → read_ping_request b (b.string_nt (stringify ips) ++ (b.u32 port ++ rest))
        ≡ some (ping_request (stored ips) port, rest)
  unfolding read_ping_request
  read_ping_request_back ips port rest p h =
      rw (read_set-stringify ips (b.u32 port ++ rest) p, law.u32_back port h rest) refl

  read_ping_answer_back :
      (number : ℕ) (time : Text) (rest : List ℕ)
      → IsPlain time
      → number < 2 ^ 32
      → read_ping_answer b (b.u32 number ++ (b.string_nt time ++ rest))
        ≡ some (ping_answer number (stored time), rest)
  unfolding read_ping_answer
  read_ping_answer_back number time rest p h =
      rw (law.u32_back number h (b.string_nt time ++ rest), law.string_back time p rest) refl

  -- The bytes of a content that was written.
  pub of_bytes :
      (c : Content) (w bytes rest : List ℕ)
      → some w ≡ some bytes
      → read_content b w ≡ some (c, rest)
      → read_content b bytes ≡ some (c, rest)
  of_bytes c w bytes rest e = subst (λ (x : List ℕ). read_content b x ≡ some (c, rest)) (cc e)

  of_bytes_if :
      (t : Bool) (c : Content) (w bytes rest : List ℕ)
      → (if t then some w else none) ≡ some bytes
      → (t ≡ true → read_content b w ≡ some (c, rest))
      → read_content b bytes ≡ some (c, rest)
  of_bytes_if true c w bytes rest e f = of_bytes c w bytes rest e (f refl)
  of_bytes_if false c w bytes rest e f = cc

  -- Over a buffer library that reads back what it wrote: the bytes of a content are read as a content
  -- of the same class with the same ids, sets, numbers and texts, and what was written behind it is
  -- left; but the reader stores the text of an id for a NodeID, an array for the JSON text of a set,
  -- and the `Date` of the time for its text. It holds for each content but a leave answer and an error
  -- response, with texts in ASCII; a leave request is of the type 1 or 2.
  pub read_content-write_content :
      (c : Content) (rest bytes : List ℕ)
      → IsSound c
      → write_content b c rest ≡ some bytes
      → read_content b bytes ≡ some (as_read c, rest)
  unfolding write_content get_decoder decode
  read_content-write_content (attach_request sdp update) rest bytes s e =
      of_bytes _ _ bytes rest e (
        read_content-u8 3 _ _ (omega arith) refl
        ∙ read_attach_back attach_request sdp update rest s)
  read_content-write_content (attach_answer sdp update) rest bytes s e =
      of_bytes _ _ bytes rest e (
        read_content-u8 4 _ _ (omega arith) refl ∙ read_attach_back attach_answer sdp update rest s)
  read_content-write_content (join_request (stored id)) rest bytes s e = cc
  read_content-write_content (join_request (built id)) rest bytes s e =
      of_bytes _ _ bytes rest e
        (read_content-u8 0xF _ _ (omega arith) refl ∙ rw (law.string_back id s rest) refl)
  read_content-write_content join_answer rest bytes s e =
      of_bytes _ _ bytes rest e
        (read_content-u8 0x10 _ _ (omega arith) refl ∙ rw (law.string_back [] tt rest) refl)
  read_content-write_content leave_answer rest bytes s e = absurd s
  read_content-write_content update_request rest bytes s e =
      of_bytes _ _ bytes rest e (read_content-u8 0x13 _ _ (omega arith) refl)
  read_content-write_content (leave_request type id (stored set)) rest bytes s e =
      absurd (unwritten_set _ type set s.0 e)
  read_content-write_content (leave_request type id (built set)) rest bytes s e =
      of_bytes_if (ltb type (2 ^ 8)) _ _ bytes rest
        (sym (given-some _ (built_set type set s.0)) ∙ e)
        (λ _. read_content-u8 0x11 _ _ (omega arith) refl ∙ read_leave_back type id set rest s)
  read_content-write_content (update_answer (stored ps) ss start) rest bytes s e = cc
  read_content-write_content (update_answer (built ps) (stored ss) start) rest bytes s e = cc
  read_content-write_content (update_answer (built ps) (built ss) start) rest bytes s e =
      of_bytes _ _ bytes rest e
        (read_content-u8 0x14 _ _ (omega arith) refl ∙ read_update_answer_back ps ss start rest s)
  read_content-write_content (ping_request (stored ips) port) rest bytes s e = cc
  read_content-write_content (ping_request (built ips) port) rest bytes s e =
      of_bytes_if (ltb port (2 ^ 32)) _ _ bytes rest e (λ h.
        read_content-u8 0x17 _ _ (omega arith) refl
        ∙ read_ping_request_back ips port rest s (ground (arith, h)))
  read_content-write_content (ping_answer number (stored time)) rest bytes s e = cc
  read_content-write_content (ping_answer number (built time)) rest bytes s e =
      of_bytes_if (ltb number (2 ^ 32)) _ _ bytes rest e (λ h.
        read_content-u8 0x18 _ _ (omega arith) refl
        ∙ read_ping_answer_back number time rest s (ground (arith, h)))
  read_content-write_content (error_response type info code) rest bytes s e = absurd s
