-- ===== src/Transport/Wire/Lists.antt =====
-- A list of identifiers that is written is read back.
use reloadjs.Base.{
  ℕ, zero, suc, ◌+◌, ◌-◌, ◌<◌, ◌≤◌, ◌≡◌, refl, ◌==◌, false, List, [], ◌∷◌, ◌++◌, some, arith,
  length, length-append, All,
}
use reloadjs.Transport.Header.{RoutableId, node_id, resource_id, opaque_id, get_type, id_text}
use reloadjs.Transport.Wire.{
  SmartBuffer, IsPlain, IsSmartBuffer, id_bytes, list_bytes, list_length, make_id, read_id,
  read_ids, read_list,
}

abbrev pub ArePlain : List RoutableId → Type 0
ArePlain = All (λ id. IsPlain (id_text id))

module _ (b : SmartBuffer) (law : IsSmartBuffer b) where
  read_id-id_bytes :
      (id : RoutableId) (rest : List ℕ)
      → IsPlain (id_text id)
      → read_id b (id_bytes b id rest) ≡ some (id, rest)
  unfolding read_id id_bytes get_type make_id
  read_id-id_bytes (node_id id) rest p = rw (law.u8_back 1 (omega arith), law.string_back id p) refl
  read_id-id_bytes (resource_id id) rest p =
      rw (law.u8_back 2 (omega arith), law.string_back id p) refl
  read_id-id_bytes (opaque_id id) rest p =
      rw (law.u8_back 3 (omega arith), law.string_back id p) refl

  length-id_bytes :
      (id : RoutableId) (rest : List ℕ)
      → length (id_bytes b id rest) ≡ length (id_bytes b id []) + length rest
  unfolding id_bytes
  length-id_bytes id rest = omega (
    arith,
    length-append (b.u8 (get_type id)) (b.string_nt (id_text id) ++ rest),
    length-append (b.u8 (get_type id)) (b.string_nt (id_text id) ++ []),
    length-append (b.string_nt (id_text id)) rest,
    length-append (b.string_nt (id_text id)) [],
  )

  id_bytes_not_empty : (id : RoutableId) (rest : List ℕ) → 0 < length (id_bytes b id rest)
  unfolding id_bytes
  id_bytes_not_empty id rest = omega (
    arith,
    length-append (b.u8 (get_type id)) (b.string_nt (id_text id) ++ rest),
    law.u8_width (get_type id),
  )

  length-list_bytes :
      (ids : List RoutableId) (rest : List ℕ)
      → length (list_bytes b ids rest) ≡ length (list_bytes b ids []) + length rest
  unfolding list_bytes
  length-list_bytes [] rest = omega arith
  length-list_bytes (id ∷ ids) rest = omega (
    arith,
    length-list_bytes ids rest,
    length-id_bytes id (list_bytes b ids rest),
    length-id_bytes id (list_bytes b ids []),
  )

  length-ids : (ids : List RoutableId) (rest : List ℕ) → length ids ≤ length (list_bytes b ids rest)
  unfolding list_bytes
  length-ids [] rest = omega arith
  length-ids (id ∷ ids) rest = omega (
    arith,
    length-ids ids rest,
    length-id_bytes id (list_bytes b ids rest),
    id_bytes_not_empty id [],
  )

  read_ids-list_bytes :
      (ids : List RoutableId) (rest : List ℕ) (rounds : ℕ)
      → ArePlain ids
      → length ids < rounds
      → read_ids b rounds (length (list_bytes b ids [])) (list_bytes b ids rest) ≡ some (ids, rest)
  unfolding read_ids
  read_ids-list_bytes ids rest zero p enough = absurd (omega (arith, enough))
  read_ids-list_bytes [] rest (suc rounds) p enough = unfold list_bytes in refl
  read_ids-list_bytes (id ∷ ids) rest (suc rounds) p enough =
      go (read_ids-list_bytes ids rest rounds p.1 (omega arith))
    where
      left : ℕ
      left = length (list_bytes b (id ∷ ids) [])

      not_done : (left == 0) ≡ false
      not_done =
          unfold list_bytes in
          ground (arith, length-id_bytes id (list_bytes b ids []), id_bytes_not_empty id [])

      used :
          left - (length (list_bytes b (id ∷ ids) rest) - length (list_bytes b ids rest))
          ≡ length (list_bytes b ids [])
      used =
          unfold list_bytes in
          omega (
            arith,
            length-list_bytes ids rest,
            length-id_bytes id (list_bytes b ids rest),
            length-id_bytes id (list_bytes b ids []),
          )

      first : read_id b (list_bytes b (id ∷ ids) rest) ≡ some (id, list_bytes b ids rest)
      first = unfold list_bytes in read_id-id_bytes id (list_bytes b ids rest) p.0

      go :
          read_ids b rounds (length (list_bytes b ids [])) (list_bytes b ids rest)
            ≡ some (ids, rest)
          → read_ids b (suc rounds) left (list_bytes b (id ∷ ids) rest) ≡ some (id ∷ ids, rest)
      go e = rw (read_ids, not_done, first, used, e) refl

  pub read_list-list_bytes :
      (ids : List RoutableId) (rest : List ℕ)
      → ArePlain ids
      → read_list b (list_length b ids) (list_bytes b ids rest) ≡ some (ids, rest)
  unfolding read_list list_length
  read_list-list_bytes ids rest p =
      read_ids-list_bytes ids rest (suc (length (list_bytes b ids rest))) p
        (omega (arith, length-ids ids rest))
