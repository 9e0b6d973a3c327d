-- ===== src/Transport/Codes.antt =====
-- The codes of messages: `MessageCode` of Transport/messages/message.js, and the choice of a decoder
-- by Transport/messages/content/ContentType.js.
use reloadjs.Base.{
  ℕ, ◌≡◌, ◌↔◌, refl, sym, ap, ◌∙◌, inl, inr, ◌==◌, List, [], ◌∷◌, Option, none, some, arith,
  if◌then◌else◌, Bool-cases,
}

-- The keys of `MessageCode`; `error_code` is the key `error`.
pub data MessageCode : Type 0 where
  invalid_message_code probe_req probe_ans attach_req attach_ans store_req store_ans fetch_req :
      MessageCode
  fetch_ans find_req find_ans join_req join_ans leave_req leave_ans update_req update_ans :
      MessageCode
  route_query_req route_query_ans ping_req ping_ans stat_req stat_ans app_attach_req : MessageCode
  app_attach_ans config_update_req config_update_ans exp_a_req exp_a_ans exp_b_req exp_b_ans :
      MessageCode
  error_code : MessageCode

unfoldable pub code : MessageCode → ℕ
code invalid_message_code = 0
code probe_req = 1
code probe_ans = 2
code attach_req = 3
code attach_ans = 4
code store_req = 7
code store_ans = 8
code fetch_req = 9
code fetch_ans = 0xA
code find_req = 0xD
code find_ans = 0xE
code join_req = 0xF
code join_ans = 0x10
code leave_req = 0x11
code leave_ans = 0x12
code update_req = 0x13
code update_ans = 0x14
code route_query_req = 0x15
code route_query_ans = 0x16
code ping_req = 0x17
code ping_ans = 0x18
code stat_req = 0x19
code stat_ans = 0x1A
code app_attach_req = 0x1D
code app_attach_ans = 0x1E
code config_update_req = 0x21
code config_update_ans = 0x22
code exp_a_req = 0x23
code exp_a_ans = 0x24
code exp_b_req = 0x25
code exp_b_ans = 0x26
code error_code = 0xFFFF

-- The keys in the order in which the loop meets them.
abbrev pub all_codes : List MessageCode
all_codes =
    invalid_message_code ∷ probe_req ∷ probe_ans ∷ attach_req ∷ attach_ans ∷ store_req ∷ store_ans
    ∷ fetch_req ∷ fetch_ans ∷ find_req ∷ find_ans ∷ join_req ∷ join_ans ∷ leave_req ∷ leave_ans
    ∷ update_req ∷ update_ans ∷ route_query_req ∷ route_query_ans ∷ ping_req ∷ ping_ans ∷ stat_req
    ∷ stat_ans ∷ app_attach_req ∷ app_attach_ans ∷ config_update_req ∷ config_update_ans ∷ exp_a_req
    ∷ exp_a_ans ∷ exp_b_req ∷ exp_b_ans ∷ error_code ∷ []

unfoldable pub find_code : ℕ → List MessageCode → Option MessageCode
unfolding code
find_code n [] = none
find_code n (c ∷ cs) = let rest = find_code n cs in if code c == n then some c else rest

-- `getContentType`; where it finds no key it gives the number 0.
unfoldable pub get_content_type : ℕ → Option MessageCode
unfolding find_code
get_content_type n = find_code n all_codes

-- What `getDecoder` picks: a static method of a content class.
pub data Decoder : Type 0 where
  attach_request_decoder attach_answer_decoder join_request_decoder join_answer_decoder : Decoder
  leave_request_decoder leave_answer_decoder update_request_decoder update_answer_decoder : Decoder
  ping_request_decoder ping_answer_decoder error_response_decoder : Decoder

-- `mapMessageType` and `getDecoder`; for another number the method of no class is read, and that
-- throws.
unfoldable pub get_decoder : ℕ → Option Decoder
get_decoder n =
    if n == 3
    then some attach_request_decoder
    else if n == 4
    then some attach_answer_decoder
    else if n == 0xF
    then some join_request_decoder
    else if n == 0x10
    then some join_answer_decoder
    else if n == 0x11
    then some leave_request_decoder
    else if n == 0x12
    then some leave_answer_decoder
    else if n == 0x13
    then some update_request_decoder
    else if n == 0x14
    then some update_answer_decoder
    else if n == 0x17
    then some ping_request_decoder
    else if n == 0x18
    then some ping_answer_decoder
    else if n == 0xFFFF
    then some error_response_decoder
    else none

find_code-code :
    (n : ℕ) (c : MessageCode) (cs : List MessageCode) → find_code n cs ≡ some c → code c ≡ n
unfolding find_code
find_code-code n c [] h = cc
find_code-code n c (x ∷ xs) h = elim (Bool-cases (code x == n)) [
  | inl hit ↦
      (let e : some x ≡ some c = (rw hit at h) in
        let q : x ≡ c = cc e in ap code (sym q) ∙ ground (arith, hit))
  | inr miss ↦ find_code-code n c xs (rw miss at h)
]

found : (c : MessageCode) → get_content_type (code c) ≡ some c
unfolding get_content_type find_code code
found invalid_message_code = refl
found probe_req = refl
found probe_ans = refl
found attach_req = refl
found attach_ans = refl
found store_req = refl
found store_ans = refl
found fetch_req = refl
found fetch_ans = refl
found find_req = refl
found find_ans = refl
found join_req = refl
found join_ans = refl
found leave_req = refl
found leave_ans = refl
found update_req = refl
found update_ans = refl
found route_query_req = refl
found route_query_ans = refl
found ping_req = refl
found ping_ans = refl
found stat_req = refl
found stat_ans = refl
found app_attach_req = refl
found app_attach_ans = refl
found config_update_req = refl
found config_update_ans = refl
found exp_a_req = refl
found exp_a_ans = refl
found exp_b_req = refl
found exp_b_ans = refl
found error_code = refl

-- `getContentType` names a code exactly by the one key that has it.
pub get_content_type_iff : (n : ℕ) (c : MessageCode) → (get_content_type n ≡ some c) ↔ (code c ≡ n)
get_content_type_iff n c = (
  (λ h. find_code-code n c all_codes (unfold get_content_type in h)),
  λ e. ap get_content_type (sym e) ∙ found c,
)
