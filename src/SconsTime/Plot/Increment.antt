-- ===== src/SconsTime/Plot/Increment.antt =====
-- The size of a graph and of its increment lines.
use domq.Prelude.{
  ℕ, zero, suc, ◌+◌, ◌-◌, ◌*◌, ◌/◌, ◌≤◌, ◌<◌, leb, ◌==◌, ◌≡◌, refl, sym, arith, false, Bool-cases,
  inl, inr,
}
use native.Mathlib.Nat.{
  mul_comm, mul_assoc, mul-le-mul_right, le_trans, div-mul-le_self, lt-div-mul-add,
  le_of_mul-le-mul_right, lt_of_mul-lt-mul_right,
}
use domq.SconsTime.Plot.{increment_loop, increment_size, max_graph_value}

tenth_low : (q i m : ℕ) → q * 10 ≤ i → q * (m * 10) ≤ i * m
tenth_low q i m h = rw (mul_comm m 10, sym (mul_assoc q 10 m)) (mul-le-mul_right m h)

tenth_high : (q i m : ℕ) → i + 1 ≤ (q + 1) * 10 → (i + 1) * m ≤ (q + 1) * (m * 10)
tenth_high q i m h = rw (mul_comm m 10, sym (mul_assoc (q + 1) 10 m)) (mul-le-mul_right m h)

digit_high : (i m : ℕ) → 0 < i → (i + 1) * m ≤ 2 * (i * m)
digit_high i m h = rw (sym (mul_assoc 2 i m)) (mul-le-mul_right m (omega arith))

-- Leaving digits off keeps the leading one: the size is not more than the number, and more than half
-- of it.
increment_loop_bounds :
    (fuel i m : ℕ)
    → 0 < i
    → i ≤ fuel
    → (increment_loop fuel i m ≤ i * m) × ((i + 1) * m ≤ 2 * increment_loop fuel i m)
unfolding increment_loop
increment_loop_bounds zero i m h k = absurd (omega arith)
increment_loop_bounds (suc fuel) i m h k = elim (Bool-cases (leb 10 i)) [
  | inl more ↦
      let (low, high) =
        increment_loop_bounds fuel (i / 10) (m * 10) (ground arith) (ground arith) in
      rw more (
        le_trans low (tenth_low (i / 10) i m (omega arith)),
        le_trans (tenth_high (i / 10) i m (omega arith)) high,
      )
  | inr done ↦ rw done (omega arith, digit_high i m h)
]

-- The increment of a graph of a certain size, which has at least one.
increment_size_bounds :
    (size : ℕ) → 5 ≤ size → (5 * increment_size size ≤ size) × (size < 10 * increment_size size)
unfolding increment_size
increment_size_bounds size h =
    let some_left : (size / 5 == 0) ≡ false = ground arith in
    let (low, high) = increment_loop_bounds (size / 5) (size / 5) 1 (omega arith) (omega arith) in
    rw some_left (omega arith)

rounded_up :
    (size inc : ℕ)
    → 0 < inc
    → (size ≤ (size + inc - 1) / inc * inc) × ((size + inc - 1) / inc * inc < size + inc)
rounded_up size inc h =
    let above : size + inc - 1 < (size + inc - 1) / inc * inc + inc = lt-div-mul-add h in
    let below : (size + inc - 1) / inc * inc ≤ size + inc - 1 =
      div-mul-le_self (size + inc - 1) inc in
    omega arith

between :
    (lines inc size : ℕ)
    → 5 * inc ≤ size
    → size < 10 * inc
    → size ≤ lines * inc
    → lines * inc < size + inc
    → (5 ≤ lines) × (lines ≤ 10)
between lines inc size h k low high =
    let five : 5 * inc ≤ lines * inc = omega arith in
    let eleven : lines * inc < 11 * inc = omega arith in
    (le_of_mul-le-mul_right five (omega arith), omega (arith, lt_of_mul-lt-mul_right inc eleven))

-- For a largest value of 4 or more, a graph is divided by 5 to 10 increments: its height is the least
-- multiple of the increment that is above the value, the increment goes into the next number 5 to 9
-- times, and the height is 5 to 10 increments.
pub max_graph_value_bounds :
    (largest : ℕ)
    → 4 ≤ largest
    → (lines : ℕ) × (max_graph_value largest ≡ lines * increment_size (largest + 1))
      × (largest < max_graph_value largest)
      × (max_graph_value largest ≤ largest + increment_size (largest + 1))
      × (5 * increment_size (largest + 1) ≤ largest + 1)
      × (largest + 1 < 10 * increment_size (largest + 1))
      × (5 ≤ lines)
      × (lines ≤ 10)
unfolding max_graph_value
max_graph_value_bounds largest h =
    let inc : ℕ = increment_size (largest + 1) in
    let (low, high) = increment_size_bounds (largest + 1) (omega arith) in
    let (above, below) = rounded_up (largest + 1) inc (omega arith) in
    let (five, ten) =
      between ((largest + 1 + inc - 1) / inc) inc (largest + 1) low high above below in
    ((largest + 1 + inc - 1) / inc, refl, omega arith, omega arith, low, high, five, ten)
