-- ===== src/Ids/Interval.antt =====
-- `ElementOfInterval` as arcs of the identifier ring.
use reloadjs.Base.{
  ℕ, ◌+◌, ◌-◌, ◌<◌, ◌≡◌, ◌≢◌, ◌↔◌, ◌⊎◌, Bool, true, false, not, arith, leb, Bool-cases, inl, inr,
  if◌then◌else◌,
}
use reloadjs.Ids.{in_interval}

-- How far `b` lies from `a`, going up and wrapping from `m - 1` to 0.
abbrev pub clockwise : ℕ → ℕ → ℕ → ℕ
clockwise m a b = if leb a b then b - a else b + m - a

-- For numbers below `m` and two different ends, a number is in the interval exactly when, going up
-- from the start with wrap-around at `m`, it is met after the start and before the end, or when it
-- is the end and the end is included.
pub in_interval-clockwise :
    (m id start end : ℕ) (end_included : Bool)
    → id < m
    → start < m
    → end < m
    → start ≢ end
    → (in_interval id start end end_included ≡ true) ↔ (
        ((0 < clockwise m start id) × (clockwise m start id < clockwise m start end))
        ⊎ ((id ≡ end) × (end_included ≡ true)))
unfolding in_interval
in_interval-clockwise m id start end end_included p q r h = ground arith

-- Of three different numbers, the first is in the open interval between the others exactly when it
-- is not in the interval with the ends exchanged.
pub in_interval_swap :
    (id start end : ℕ)
    → id ≢ start
    → id ≢ end
    → start ≢ end
    → in_interval id start end false ≡ not (in_interval id end start false)
unfolding in_interval
in_interval_swap id start end h k l = ground arith

module _ (m origin id start end : ℕ) (ho : origin < m) (hi : id < m) (hs : start < m)
    (he : end < m) where
  -- Turning the ring so that `origin` comes to 0 changes no open interval.
  pub in_interval-rotate :
      in_interval id start end false
      ≡ in_interval
          (clockwise m origin id)
          (clockwise m origin start)
          (clockwise m origin end)
          false
  unfolding in_interval
  in_interval-rotate = elim (Bool-cases (leb origin id)) [
    | inl p ↦ rw p (elim (Bool-cases (leb origin start)) [
      | inl q ↦ rw q (elim (Bool-cases (leb origin end)) [
        | inl r ↦ rw r (ground arith)
        | inr r ↦ rw r (ground arith)
      ])
      | inr q ↦ rw q (elim (Bool-cases (leb origin end)) [
        | inl r ↦ rw r (ground arith)
        | inr r ↦ rw r (ground arith)
      ])
    ])
    | inr p ↦ rw p (elim (Bool-cases (leb origin start)) [
      | inl q ↦ rw q (elim (Bool-cases (leb origin end)) [
        | inl r ↦ rw r (ground arith)
        | inr r ↦ rw r (ground arith)
      ])
      | inr q ↦ rw q (elim (Bool-cases (leb origin end)) [
        | inl r ↦ rw r (ground arith)
        | inr r ↦ rw r (ground arith)
      ])
    ])
  ]

  -- Reading the ring backwards from `origin` exchanges the ends.
  pub in_interval-reflect :
      in_interval id start end false
      ≡ in_interval
          (clockwise m id origin)
          (clockwise m end origin)
          (clockwise m start origin)
          false
  unfolding in_interval
  in_interval-reflect = elim (Bool-cases (leb id origin)) [
    | inl p ↦ rw p (elim (Bool-cases (leb start origin)) [
      | inl q ↦ rw q (elim (Bool-cases (leb end origin)) [
        | inl r ↦ rw r (ground arith)
        | inr r ↦ rw r (ground arith)
      ])
      | inr q ↦ rw q (elim (Bool-cases (leb end origin)) [
        | inl r ↦ rw r (ground arith)
        | inr r ↦ rw r (ground arith)
      ])
    ])
    | inr p ↦ rw p (elim (Bool-cases (leb start origin)) [
      | inl q ↦ rw q (elim (Bool-cases (leb end origin)) [
        | inl r ↦ rw r (ground arith)
        | inr r ↦ rw r (ground arith)
      ])
      | inr q ↦ rw q (elim (Bool-cases (leb end origin)) [
        | inl r ↦ rw r (ground arith)
        | inr r ↦ rw r (ground arith)
      ])
    ])
  ]
