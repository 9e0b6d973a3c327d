-- ===== src/Transport/Content/Behind.antt =====
-- What is written behind a content of Transport/messages/content does not change its bytes.
use reloadjs.Base.{
  some_inv, ℕ, ◌^◌, ◌≡◌, refl, ap, ◌∙◌, sym, ◌==◌, ltb, Bool, true, false, ◌&&◌, ◌||◌, List, [],
  ◌++◌, none, some, Option, Text, append_assoc, if◌then◌else◌,
}
use reloadjs.Transport.Json.{stringify}
use reloadjs.Transport.Wire.{SmartBuffer, given}
use reloadjs.Transport.Content.{
  Content, attach_request, attach_answer, join_request, join_answer, leave_answer, update_request,
  leave_request, update_answer, ping_request, ping_answer, error_response, leave_bytes, leave_set,
  built, stored, flag, write_content,
}

module _ (rest : List ℕ) where
  -- One more part in front of bytes that go on with the rest.
  behind : (x y z : List ℕ) → z ≡ y ++ rest → x ++ z ≡ (x ++ y) ++ rest
  behind x y z e = ap (λ (u : List ℕ). x ++ u) e ∙ sym (append_assoc x y rest)

  goes_on : {w x y : List ℕ} → some x ≡ some w → y ≡ x ++ rest → some y ≡ some (w ++ rest)
  goes_on e h = ap some h ∙ ap (λ (u : List ℕ). some (u ++ rest)) (some_inv e)

  goes_on_if :
      (t : Bool) (w x y : List ℕ)
      → (if t then some x else none) ≡ some w
      → y ≡ x ++ rest
      → (if t then some y else none) ≡ some (w ++ rest)
  goes_on_if true w x y e h = goes_on e h
  goes_on_if false w x y e h = cc

module _ (b : SmartBuffer) where
  leave_bytes-append :
      (type : ℕ) (set : List Text) (rest : List ℕ)
      → leave_bytes b type set rest ≡ leave_bytes b type set [] ++ rest
  unfolding leave_bytes
  leave_bytes-append type set rest = go (type == 1 || type == 2)
    where
      go :
          (t : Bool)
          → (if t then b.string_nt (stringify set) ++ rest else rest)
            ≡ (if t then b.string_nt (stringify set) ++ [] else []) ++ rest
      go true = behind rest (b.string_nt (stringify set)) _ _ refl
      go false = refl

  pub write_content-append :
      (c : Content) (w rest : List ℕ)
      → write_content b c [] ≡ some w
      → write_content b c rest ≡ some (w ++ rest)
  unfolding write_content leave_bytes
  write_content-append (attach_request sdp update) w rest e = goes_on rest e (
      behind rest (b.u8 3) _ _
        (behind rest (b.string_nt sdp) _ _ (behind rest (b.u8 (flag update)) _ _ refl)))
  write_content-append (attach_answer sdp update) w rest e = goes_on rest e (
      behind rest (b.u8 4) _ _
        (behind rest (b.string_nt sdp) _ _ (behind rest (b.u8 (flag update)) _ _ refl)))
  write_content-append (join_request (stored id)) w rest e = cc
  write_content-append (join_request (built id)) w rest e =
      goes_on rest e (behind rest (b.u8 0xF) _ _ (behind rest (b.string_nt id) _ _ refl))
  write_content-append join_answer w rest e =
      goes_on rest e (behind rest (b.u8 0x10) _ _ (behind rest (b.string_nt []) _ _ refl))
  write_content-append leave_answer w rest e =
      goes_on rest e (behind rest (b.string_nt []) _ _ refl)
  write_content-append update_request w rest e = goes_on rest e (behind rest (b.u8 0x13) _ _ refl)
  write_content-append (leave_request type id field) w rest e = go (leave_set type field) e
    where
      go :
          (o : Option (List Text))
          → given o (λ set.
            if ltb type (2 ^ 8)
            then some (b.u8 0x11 ++ (b.u8 type ++ (b.string_nt id ++ leave_bytes b type set [])))
            else none)
            ≡ some w
          → given o (λ set.
            if ltb type (2 ^ 8)
            then some (b.u8 0x11 ++ (b.u8 type ++ (b.string_nt id ++ leave_bytes b type set rest)))
            else none)
            ≡ some (w ++ rest)
      go none k = cc
      go (some set) k = goes_on_if rest (ltb type (2 ^ 8)) w _ _ k (
          behind rest (b.u8 0x11) _ _ (
            behind rest (b.u8 type) _ _
              (behind rest (b.string_nt id) _ _ (leave_bytes-append type set rest))))
  write_content-append (update_answer (stored ps) ss start) w rest e = cc
  write_content-append (update_answer (built ps) (stored ss) start) w rest e = cc
  write_content-append (update_answer (built ps) (built ss) start) w rest e = goes_on rest e (
      behind rest (b.u8 0x14) _ _ (
        behind rest (b.string_nt (stringify ps)) _ _ (
          behind rest (b.string_nt (stringify ss)) _ _ (behind rest (b.string_nt start) _ _ refl))))
  write_content-append (ping_request (stored ips) port) w rest e = cc
  write_content-append (ping_request (built ips) port) w rest e =
      goes_on_if rest (ltb port (2 ^ 32)) w _ _ e (
        behind rest (b.u8 0x17) _ _
          (behind rest (b.string_nt (stringify ips)) _ _ (behind rest (b.u32 port) _ _ refl)))
  write_content-append (ping_answer number (stored time)) w rest e = cc
  write_content-append (ping_answer number (built time)) w rest e =
      goes_on_if rest (ltb number (2 ^ 32)) w _ _ e (
        behind rest (b.u8 0x18) _ _
          (behind rest (b.u32 number) _ _ (behind rest (b.string_nt time) _ _ refl)))
  write_content-append (error_response type info code) w rest e =
      goes_on_if rest (ltb code (2 ^ 8) && ltb type (2 ^ 8)) w _ _ e (
        behind rest (b.u8 code) _ _
          (behind rest (b.u8 type) _ _ (behind rest (b.string_nt info) _ _ refl)))
