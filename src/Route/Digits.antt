-- ===== src/Route/Digits.antt =====
-- The fuel of the decimal digits is enough.
use Prim.Native.Nat.{◌/◌, ◌%◌}
use tool_gateway_agentgatewa.Prelude.{
  ℕ, zero, suc, ◌<◌, String, ◌≡◌, refl, false, Bool-cases, inl, inr, [], ◌∷◌, ◌==◌, arith,
}
use tool_gateway_agentgatewa.Prelude.Text.{concat}
use tool_gateway_agentgatewa.Route.Numbers.{digit, decimal_loop}

-- A number with a further digit is larger than what is left of it.
shrinks : (n k : ℕ) → n / 10 == 0 ≡ false → n < suc k → n / 10 < k
shrinks n k e h = ground arith

-- Any two fuels above the number give the same digits.
decimal_loop_fuel :
    (f g n : ℕ) (rest : String) → n < f → n < g → decimal_loop f n rest ≡ decimal_loop g n rest
unfolding decimal_loop
decimal_loop_fuel zero g n rest hf hg = elim (none_below hf) [ ]
  where
    none_below : n < 0 → ⊥
    none_below h = omega arith
decimal_loop_fuel (suc f) zero n rest hf hg = elim (none_below hg) [ ]
  where
    none_below : n < 0 → ⊥
    none_below h = omega arith
decimal_loop_fuel (suc f) (suc g) n rest hf hg =
    let shown = concat (digit (n % 10) ∷ rest ∷ []) in
    elim (Bool-cases (n / 10 == 0)) [
      | inl e ↦ rw e refl
      | inr e ↦ rw e (decimal_loop_fuel f g (n / 10) shown (shrinks n f e hf) (shrinks n g e hg))
    ]
