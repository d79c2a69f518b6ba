-- ===== src/Sim/Rng/Jump.antt =====
-- Where the generator's state is after many draws (api/app/sim/rng.py).
use go_forth.Prelude.{ℕ, zero, suc, ◌+◌, ◌*◌, ◌%◌, ◌<◌, ◌≡◌, arith}
use go_forth.Sim.Rng.{Rng, two_pow_32, next_uint32}

-- The generator after so many draws.
unfoldable pub after : ℕ → Rng → Rng
after zero r = r
after (suc n) r = after n (next_uint32 r).1

pub state-after :
    (n : ℕ) (r : Rng)
    → r.state < two_pow_32
    → (after n r).state ≡ (r.state + n * 0x6D2B79F5) % two_pow_32
unfolding after next_uint32
state-after zero r h = omega arith
state-after (suc n) r h = omega (arith, state-after n (next_uint32 r).1 (omega arith))
