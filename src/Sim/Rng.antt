-- ===== src/Sim/Rng.antt =====
-- The simulator's only source of randomness, api/app/sim/rng.py: mulberry32, one 32-bit word of state.
-- A draw returns its value with the generator after it. `& MASK32` is the remainder by 2 ^ 32, and
-- `>>` the quotient by a power of 2.
pub mod Jump
use go_forth.Prelude.{ℕ, zero, suc, ◌+◌, ◌-◌, ◌*◌, ◌/◌, ◌%◌, ◌^◌}
use go_forth.Prelude.Float.{Float, ◌⊘◌, ◌⊗◌}
use go_forth.Prelude.Int.{ℤ, pos, negsuc}
use Prim.Native.Nat.{bit_or, bit_xor}

abbrev pub two_pow_32 : ℕ
two_pow_32 = 2 ^ 32

pub record Rng : Type 0 where
  pub state : ℕ

-- Rng.__init__, whose mask keeps the low 32 bits of a negative number's two's complement.
unfoldable pub create_rng : ℤ → Rng
create_rng (pos seed) = record { state = seed % two_pow_32 }
create_rng (negsuc n) = record { state = two_pow_32 - 1 - n % two_pow_32 }

-- The three lines that turn the state into a draw.
unfoldable pub scrambled : ℕ → ℕ
scrambled state =
    let t = (bit_xor state (state / 2 ^ 15) * bit_or 1 state) % two_pow_32 in
    let s = bit_xor ((t + (bit_xor t (t / 2 ^ 7) * bit_or 61 t) % two_pow_32) % two_pow_32) t in
    bit_xor s (s / 2 ^ 14) % two_pow_32

-- Rng.next_uint32
unfoldable pub next_uint32 : Rng → ℕ × Rng
next_uint32 r =
    let state = (r.state + 0x6D2B79F5) % two_pow_32 in (scrambled state, record { state = state })

-- Rng.next_float
unfoldable pub next_float : {F : Type 0} ⦃f : Float F⦄ → Rng → F × Rng
next_float ⦃f = f⦄ r =
    let (drawn, after) = next_uint32 r in (f.of_nat drawn ⊘ f.of_nat two_pow_32, after)
