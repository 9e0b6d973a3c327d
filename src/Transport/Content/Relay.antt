-- ===== src/Transport/Content/Relay.antt =====
-- Writing a content of Transport/messages/content that was read, as a peer does that forwards it.
use reloadjs.Base.{ℕ, ◌≡◌, ◌⊎◌, refl, ◌∙◌, inl, inr, ap, List, none, some}
use reloadjs.Transport.Wire.{SmartBuffer, IsSmartBuffer, next, given-none}
use reloadjs.Transport.Content.{
  Content, attach_request, attach_answer, join_request, join_answer, leave_answer, update_request,
  leave_request, update_answer, ping_request, ping_answer, error_response, as_read, write_content,
  read_content, value,
}
use reloadjs.Transport.Content.RoundTrip.{IsSound, stored_set, read_content-write_content}

-- The classes of contents all of whose fields are stored as they were built.
abbrev pub IsCarried : Content → Type 0
IsCarried (attach_request sdp update) = Unit
IsCarried (attach_answer sdp update) = Unit
IsCarried join_answer = Unit
IsCarried update_request = Unit
IsCarried _ = ⊥

-- Such a content can be written as before, and the others with a decoder cannot be written.
written_again :
    (b : SmartBuffer) (c : Content) (rest : List ℕ)
    → IsSound c
    → (IsCarried c × (write_content b (as_read c) rest ≡ write_content b c rest))
      ⊎ ((¬ IsCarried c) × (write_content b (as_read c) rest ≡ none))
unfolding write_content
written_again b (attach_request sdp update) rest s = inl (tt, refl)
written_again b (attach_answer sdp update) rest s = inl (tt, refl)
written_again b (join_request id) rest s = inr (λ k. k, refl)
written_again b join_answer rest s = inl (tt, refl)
written_again b leave_answer rest s = absurd s
written_again b update_request rest s = inl (tt, refl)
written_again b (leave_request type id set) rest s =
    inr (λ k. k, given-none _ (stored_set type (value set) s.0))
written_again b (update_answer p q start) rest s = inr (λ k. k, refl)
written_again b (ping_request ips port) rest s = inr (λ k. k, refl)
written_again b (ping_answer number time) rest s = inr (λ k. k, refl)
written_again b (error_response type info code) rest s = absurd s

-- Over a buffer library that reads back what it wrote: of a content that one peer writes and the next
-- one reads, the next one writes the same bytes again if it is an attach message, a join answer or an
-- update request. Of every other content with a decoder it writes none, as `serialize` throws: the
-- fields that were read are no texts or NodeIDs any more. The texts are in ASCII, and a leave request
-- is of the type 1 or 2.
pub relayed_content :
    (b : SmartBuffer)
    → IsSmartBuffer b
    → (c : Content) (rest bytes : List ℕ) → IsSound c
    → write_content b c rest ≡ some bytes
    → (IsCarried c × (next (read_content b bytes) (write_content b) ≡ some bytes))
      ⊎ ((¬ IsCarried c) × (next (read_content b bytes) (write_content b) ≡ none))
relayed_content b law c rest bytes s e =
    let reads : next (read_content b bytes) (write_content b) ≡ write_content b (as_read c) rest =
      ap (λ o. next o (write_content b)) (read_content-write_content b law c rest bytes s e) in
    elim (written_again b c rest s) [
      | inl (k, again) ↦ inl (k, reads ∙ again ∙ e)
      | inr (k, fails) ↦ inr (k, reads ∙ fails)
    ]
