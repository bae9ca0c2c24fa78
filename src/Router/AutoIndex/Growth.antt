-- ===== src/Router/AutoIndex/Growth.antt =====
-- The growing buffer: it always has room for its text and a NUL.
use miniweb.Prelude.{
  ℕ, zero, suc, ◌+◌, ◌*◌, ◌≤◌, ◌<◌, ◌≡◌, ◌⊎◌, refl, Bool, false, none, some, ◌++◌, Bytes, ltb,
  length, length-append, arith, Bool-cases, inl, inr,
}
use miniweb.Router.AutoIndex.{Buffer, grow, append_str}

-- Enough fuel: each round at least doubles a capacity that is not 0.
grow-enough :
    (fuel needed ncap : ℕ) → 0 < ncap → needed ≤ ncap + fuel → needed ≤ grow fuel needed ncap
unfolding grow
grow-enough zero needed ncap h k = omega arith
grow-enough (suc fuel) needed ncap h k = elim (Bool-cases (ltb ncap needed)) [
  | inl small ↦ rw small (grow-enough fuel needed (ncap * 2) (omega arith) (omega arith))
  | inr large ↦ rw large (ground (arith, large))
]

grow-le : (fuel needed ncap : ℕ) → ncap ≤ grow fuel needed ncap
unfolding grow
grow-le zero needed ncap = omega arith
grow-le (suc fuel) needed ncap = elim (Bool-cases (ltb ncap needed)) [
  | inl small ↦ rw small (omega (arith, grow-le fuel needed (ncap * 2)))
  | inr large ↦ rw large (omega arith)
]

pub HasRoom : Buffer → Type 0
HasRoom b = length b.text + 1 ≤ b.cap

-- append_str on a buffer that has room for its text fails exactly if a larger block is needed and
-- there is none; otherwise it appends the text, and the block again has room for all of it.
pub append_str_lem :
    (has_memory : Bool) (b : Buffer) (s : Bytes)
    → HasRoom b
    → ((append_str has_memory b s ≡ none)
        × (has_memory ≡ false)
        × (b.cap < length b.text + length s + 1))
      ⊎ ((c : Buffer) × (append_str has_memory b s ≡ some c)
          × (c.text ≡ b.text ++ s)
          × HasRoom c
          × (b.cap ≤ c.cap))
unfolding append_str HasRoom
append_str_lem has_memory b s room =
    let needed = length b.text + length s + 1 in
    elim (Bool-cases (ltb b.cap needed)) [
      | inr fits ↦
          let enough : needed ≤ b.cap = ground (arith, fits) in
          rw fits (
            inr (
              record { text = b.text ++ s; cap = b.cap },
              refl,
              refl,
              omega (arith, length-append b.text s, enough),
              omega arith,
            ))
      | inl small ↦ rw small (elim (Bool-cases has_memory) [
        | inr none_left ↦ rw none_left (inl (refl, refl, ground (arith, small)))
        | inl got ↦ rw got (
            inr (
              record { text = b.text ++ s; cap = grow needed needed b.cap },
              refl,
              refl,
              omega (
                arith,
                length-append b.text s,
                grow-enough needed needed b.cap (omega arith) (omega arith),
              ),
              grow-le needed needed b.cap,
            ))
      ])
    ]
