-- ===== src/Transport/Content/Failures.antt =====
-- The contents of Transport/messages/content that do not reach the other peer.
use reloadjs.Base.{ℕ, ◌<◌, ◌^◌, ◌≡◌, refl, ap, ◌∙◌, sym, List, ◌++◌, none, some, arith, Text}
use reloadjs.Transport.Wire.{SmartBuffer, IsSmartBuffer, given-none}
use reloadjs.Transport.Codes.{get_decoder}
use reloadjs.Transport.Content.{
  leave_answer, new_error_response, write_content, read_content, decode,
}

module _ (b : SmartBuffer) (law : IsSmartBuffer b) where
  no_decoder :
      (code : ℕ) (rest : List ℕ)
      → code < 2 ^ 8
      → get_decoder code ≡ none
      → read_content b (b.u8 code ++ rest) ≡ none
  unfolding read_content
  no_decoder code rest h e = rw (law.u8_back code h rest) (given-none (λ d. decode b d rest) e)

  -- Over a buffer library that reads back what it wrote: a content whose code has no decoder is
  -- refused; the constructor's error response is never written, since its code is no byte; and what
  -- is written of a leave answer is refused, since it has no code.
  pub read_content_fails :
      (rest : List ℕ)
      → ((code : ℕ)
          → code < 2 ^ 8
          → get_decoder code ≡ none
          → read_content b (b.u8 code ++ rest) ≡ none)
        × ((type : ℕ) (info : Text) → write_content b (new_error_response type info) rest ≡ none)
        × ((bytes : List ℕ)
            → write_content b leave_answer rest ≡ some bytes
            → read_content b bytes ≡ none)
  unfolding write_content new_error_response
  read_content_fails rest = (
    λ code h e. no_decoder code rest h e,
    λ type info. refl,
    λ bytes e.
        ap (read_content b) (sym (cc e))
        ∙ (ap (λ (w : List ℕ). read_content b (w ++ rest)) law.string_end
            ∙ no_decoder 0 rest (omega arith) (unfold get_decoder in refl)),
  )
