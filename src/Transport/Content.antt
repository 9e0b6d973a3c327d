-- ===== src/Transport/Content.antt =====
-- The classes under Transport/messages/content: AttachMessage.js, JoinRequest.js, JoinAnswer.js,
-- LeaveRequest.js, LeaveAnswer.js, UpdateRequest.js, UpdateAnswer.js, PingRequest.js,
-- PingAnswer.js, ErrorResponse.js, and `deSerialize` of Content.js, which chooses among them.
pub mod RoundTrip
pub mod Failures
pub mod Relay
pub mod Behind
use reloadjs.Base.{
  ℕ, ◌+◌, ◌<◌, ◌^◌, ◌≡◌, ◌==◌, ltb, Bool, true, false, ◌&&◌, ◌||◌, List, [], ◌∷◌, ◌++◌, Option,
  none, some, if◌then◌else◌, Text,
}
use reloadjs.Transport.Wire.{SmartBuffer, next, given}
use reloadjs.Transport.Json.{stringify, parse}
use reloadjs.Transport.Codes.{
  Decoder, get_decoder, attach_request_decoder, attach_answer_decoder, join_request_decoder,
  join_answer_decoder, leave_request_decoder, leave_answer_decoder, update_request_decoder,
  update_answer_decoder, ping_request_decoder, ping_answer_decoder, error_response_decoder,
}

-- A field whose reader stores another value than the constructor makes: the text of an id for a
-- NodeID, an array for its JSON text, or the `Date` of a text for this text. A built field holds what
-- `serialize` writes, a stored one what `deSerialize` has put there.
pub data Field (A : Type 0) : Type 0 where
  built stored : A → Field A

abbrev pub value : {A : Type 0} → Field A → A
value (built x) = x
value (stored x) = x

-- What `serialize` finds to write: the `id` of a NodeID, or the text. A text has no `id`, and
-- `writeStringNT` throws on what is undefined, on an array and on a `Date`.
unfoldable pub written_text : {A : Type 0} → Field A → Option A
written_text (built x) = some x
written_text (stored x) = none

-- The bodies. An attach request and answer hold the SDP text and whether an update is wanted, a leave
-- request its type, the id of the peer and one of its two sets, an update answer both sets and the
-- start time, a ping answer the text of its time, and an error response its type, its text and its
-- code.
pub data Content : Type 0 where
  attach_request attach_answer : Text → Bool → Content
  join_request : Field Text → Content
  join_answer leave_answer update_request : Content
  leave_request : ℕ → Text → Field (List Text) → Content
  update_answer : Field (List Text) → Field (List Text) → Text → Content
  ping_request : Field (List Text) → ℕ → Content
  ping_answer : ℕ → Field Text → Content
  error_response : ℕ → Text → ℕ → Content

-- The constructor of `LeaveRequest`, with the id and the two sets of the peer; the type 0 throws.
unfoldable pub new_leave_request : ℕ → Text → List Text → List Text → Option Content
new_leave_request type id predecessors successors =
    if type == 0
    then none
    else some (
        leave_request type id
          (built (if type == 1 then successors else if type == 2 then predecessors else [])))

-- The constructor of `ErrorResponse` without the third argument.
unfoldable pub new_error_response : ℕ → Text → Content
new_error_response type info = error_response type info 0xFFFF

abbrev pub flag : Bool → ℕ
flag false = 0
flag true = 1

-- What `serialize` of a leave request writes behind the id.
unfoldable pub leave_bytes : SmartBuffer → ℕ → List Text → List ℕ → List ℕ
leave_bytes b type set rest =
    if type == 1 || type == 2 then b.string_nt (stringify set) ++ rest else rest

-- `serialize` of each class, with the bytes that are written behind it; a number out of range throws.
unfoldable pub write_attach : SmartBuffer → ℕ → Text → Bool → List ℕ → Option (List ℕ)
write_attach b code sdp update rest =
    some (b.u8 code ++ (b.string_nt sdp ++ (b.u8 (flag update) ++ rest)))

unfoldable pub write_join_request : SmartBuffer → Field Text → List ℕ → Option (List ℕ)
unfolding written_text
write_join_request b node rest =
    given (written_text node) (λ id. some (b.u8 0xF ++ (b.string_nt id ++ rest)))

unfoldable pub write_join_answer : SmartBuffer → List ℕ → Option (List ℕ)
write_join_answer b rest = some (b.u8 0x10 ++ (b.string_nt [] ++ rest))

-- The set that is written, if the type asks for one.
unfoldable pub leave_set : ℕ → Field (List Text) → Option (List Text)
unfolding written_text
leave_set type set = if type == 1 || type == 2 then written_text set else some []

unfoldable pub write_leave_request :
    SmartBuffer → ℕ → Text → Field (List Text) → List ℕ → Option (List ℕ)
unfolding leave_bytes leave_set
write_leave_request b type id field rest = given (leave_set type field) (λ set.
    if ltb type (2 ^ 8)
    then some (b.u8 0x11 ++ (b.u8 type ++ (b.string_nt id ++ leave_bytes b type set rest)))
    else none)

unfoldable pub write_leave_answer : SmartBuffer → List ℕ → Option (List ℕ)
write_leave_answer b rest = some (b.string_nt [] ++ rest)

unfoldable pub write_update_request : SmartBuffer → List ℕ → Option (List ℕ)
write_update_request b rest = some (b.u8 0x13 ++ rest)

unfoldable pub write_update_answer :
    SmartBuffer → Field (List Text) → Field (List Text) → Text → List ℕ → Option (List ℕ)
unfolding written_text
write_update_answer b predecessors successors start rest = given (written_text predecessors) (λ ps.
    given (written_text successors) (λ ss. some (
      b.u8 0x14
      ++ (b.string_nt (stringify ps)
          ++ (b.string_nt (stringify ss) ++ (b.string_nt start ++ rest))))))

unfoldable pub write_ping_request : SmartBuffer → Field (List Text) → ℕ → List ℕ → Option (List ℕ)
unfolding written_text
write_ping_request b addresses port rest = given (written_text addresses) (λ ips.
    if ltb port (2 ^ 32)
    then some (b.u8 0x17 ++ (b.string_nt (stringify ips) ++ (b.u32 port ++ rest)))
    else none)

unfoldable pub write_ping_answer : SmartBuffer → ℕ → Field Text → List ℕ → Option (List ℕ)
unfolding written_text
write_ping_answer b number field rest = given (written_text field) (λ time.
    if ltb number (2 ^ 32)
    then some (b.u8 0x18 ++ (b.u32 number ++ (b.string_nt time ++ rest)))
    else none)

unfoldable pub write_error_response : SmartBuffer → ℕ → Text → ℕ → List ℕ → Option (List ℕ)
write_error_response b type info code rest =
    if ltb code (2 ^ 8) && ltb type (2 ^ 8)
    then some (b.u8 code ++ (b.u8 type ++ (b.string_nt info ++ rest)))
    else none

-- `serialize` of a content.
unfoldable pub write_content : SmartBuffer → Content → List ℕ → Option (List ℕ)
unfolding write_attach write_join_request write_join_answer write_leave_request write_leave_answer
    write_update_request write_update_answer write_ping_request write_ping_answer
    write_error_response
write_content b (attach_request sdp update) rest = write_attach b 3 sdp update rest
write_content b (attach_answer sdp update) rest = write_attach b 4 sdp update rest
write_content b (join_request id) rest = write_join_request b id rest
write_content b join_answer rest = write_join_answer b rest
write_content b (leave_request type id set) rest = write_leave_request b type id set rest
write_content b leave_answer rest = write_leave_answer b rest
write_content b update_request rest = write_update_request b rest
write_content b (update_answer predecessors successors start) rest =
    write_update_answer b predecessors successors start rest
write_content b (ping_request ips port) rest = write_ping_request b ips port rest
write_content b (ping_answer number time) rest = write_ping_answer b number time rest
write_content b (error_response type info code) rest = write_error_response b type info code rest

-- A string that holds an array of strings.
unfoldable pub read_set : SmartBuffer → List ℕ → Option (List Text × List ℕ)
read_set b bytes =
    next (b.read_string_nt bytes) (λ text rest. given (parse text) (λ set. some (set, rest)))

-- `deSerializeRequest` and `deSerializeAnswer` of an attach message.
unfoldable pub read_attach :
    SmartBuffer → (Text → Bool → Content) → List ℕ → Option (Content × List ℕ)
read_attach b made bytes =
    next (b.read_string_nt bytes)
      (λ sdp rest. next (b.read_u8 rest) (λ update rest. some (made sdp (update == 1), rest)))

unfoldable pub read_leave : SmartBuffer → List ℕ → Option (Content × List ℕ)
unfolding read_set
read_leave b bytes = next (b.read_u8 bytes) (λ type rest.
    if type == 0
    then none
    else next (b.read_string_nt rest) (λ id rest.
      if type == 1 || type == 2
      then next (read_set b rest) (λ set rest. some (leave_request type id (stored set), rest))
      else some (leave_request type id (stored []), rest)))

unfoldable pub read_update_answer : SmartBuffer → List ℕ → Option (Content × List ℕ)
unfolding read_set
read_update_answer b bytes = next (read_set b bytes) (λ predecessors rest.
    next (read_set b rest) (λ successors rest.
      next (b.read_string_nt rest)
        (λ start rest. some (update_answer (stored predecessors) (stored successors) start, rest))))

unfoldable pub read_ping_request : SmartBuffer → List ℕ → Option (Content × List ℕ)
unfolding read_set
read_ping_request b bytes =
    next (read_set b bytes) (λ ips rest.
      next (b.read_u32 rest) (λ port rest. some (ping_request (stored ips) port, rest)))

unfoldable pub read_ping_answer : SmartBuffer → List ℕ → Option (Content × List ℕ)
read_ping_answer b bytes = next (b.read_u32 bytes) (λ number rest.
    next (b.read_string_nt rest) (λ time rest. some (ping_answer number (stored time), rest)))

-- `deserialize` of an error response, which nothing calls: `ContentType` asks the class for a static
-- `deSerialize`.
unfoldable pub read_error_response : SmartBuffer → List ℕ → Option (Content × List ℕ)
read_error_response b bytes = next (b.read_u8 bytes) (λ code rest.
    next (b.read_u8 rest) (λ type rest.
      next (b.read_string_nt rest) (λ info rest. some (error_response type info code, rest))))

-- `deSerialize` of the classes that read a string or nothing.
unfoldable pub read_join_request : SmartBuffer → List ℕ → Option (Content × List ℕ)
read_join_request b bytes =
    next (b.read_string_nt bytes) (λ id rest. some (join_request (stored id), rest))

unfoldable pub read_join_answer : SmartBuffer → List ℕ → Option (Content × List ℕ)
read_join_answer b bytes = next (b.read_string_nt bytes) (λ text rest. some (join_answer, rest))

unfoldable pub read_leave_answer : SmartBuffer → List ℕ → Option (Content × List ℕ)
read_leave_answer b bytes = next (b.read_string_nt bytes) (λ text rest. some (leave_answer, rest))

unfoldable pub read_update_request : List ℕ → Option (Content × List ℕ)
read_update_request bytes = some (update_request, bytes)

-- A content as the other end stores it.
abbrev pub as_read : Content → Content
as_read (join_request node) = join_request (stored (value node))
as_read (leave_request type id set) = leave_request type id (stored (value set))
as_read (update_answer predecessors successors start) =
    update_answer (stored (value predecessors)) (stored (value successors)) start
as_read (ping_request ips port) = ping_request (stored (value ips)) port
as_read (ping_answer number time) = ping_answer number (stored (value time))
as_read c = c

-- `deSerialize` of the class that was chosen.
unfoldable pub decode : SmartBuffer → Decoder → List ℕ → Option (Content × List ℕ)
unfolding read_attach read_leave read_update_answer read_ping_request read_ping_answer
    read_join_request read_join_answer read_leave_answer read_update_request
decode b attach_request_decoder bytes = read_attach b attach_request bytes
decode b attach_answer_decoder bytes = read_attach b attach_answer bytes
decode b join_request_decoder bytes = read_join_request b bytes
decode b join_answer_decoder bytes = read_join_answer b bytes
decode b leave_request_decoder bytes = read_leave b bytes
decode b leave_answer_decoder bytes = read_leave_answer b bytes
decode b update_request_decoder bytes = read_update_request bytes
decode b update_answer_decoder bytes = read_update_answer b bytes
decode b ping_request_decoder bytes = read_ping_request b bytes
decode b ping_answer_decoder bytes = read_ping_answer b bytes
decode b error_response_decoder bytes = none

-- `Content.deSerialize`.
unfoldable pub read_content : SmartBuffer → List ℕ → Option (Content × List ℕ)
unfolding decode get_decoder
read_content b bytes =
    next (b.read_u8 bytes) (λ type rest. given (get_decoder type) (λ d. decode b d rest))
