-- ===== src/Prelude/Modulo.antt =====
-- Remainders by a variable modulus, for indices into a ring.
use Prim.Native.Nat.{ℕ, ◌+◌, ◌-◌, ◌/◌, ◌%◌, ◌≤◌, ◌<◌}
use mathlib.Core.Path.{◌≡◌, sym, ap, ◌∙◌}
use mathlib.Core.Logic.{◌≢◌}
use native.Mathlib.Omega.{arith}
use native.Mathlib.Nat.{
  mod-lt, mod-add-mod, add-mod_right, mod-eq_of_lt, mod-eq-sub-mod, div-add-mod',
  add-mul-mod_self_right,
}
use native.Mathlib.Decide.{dec_lt}

shift_ne : (r d c : ℕ) → r < c → 0 < d → d < c → (r + d) % c ≢ r
shift_ne r d c h p k e = elim (dec_lt (r + d) c) [
  | yes q ↦ omega (arith, mod-eq_of_lt q)
  | no q ↦ omega (
    arith,
    mod-eq-sub-mod {n = r + d} {m = c} (omega arith),
    mod-eq_of_lt {n = r + d - c} {m = c} (omega arith),
  )
]

-- Two numbers less than a modulus apart have different remainders.
pub mod_ne : (i j c : ℕ) → i < j → j < i + c → i % c ≢ j % c
mod_ne i j c h k e = absurd (
    shift_ne (i % c) (j - i) c (mod-lt i (omega arith)) (omega arith) (omega arith)
      (mod-add-mod i c (j - i) ∙ ap (λ t. t % c) (omega arith) ∙ sym e))

pub suc-mod_congr : (s a c : ℕ) → s % c ≡ a % c → (s + 1) % c ≡ (a + 1) % c
suc-mod_congr s a c e = sym (mod-add-mod s c 1) ∙ ap (λ r. (r + 1) % c) e ∙ mod-add-mod a c 1

-- Stepping back by at most the modulus.
pub back-mod : (l n c : ℕ) → n ≤ l → n ≤ c → 0 < c → (l % c + c - n) % c ≡ (l - n) % c
back-mod l n c h k p =
    let x : ℕ = l % c + c - n in
    sym (add-mul-mod_self_right x (l / c) c)
    ∙ ap (λ t. t % c) (omega (arith, div-add-mod' l c, mod-lt l p))
    ∙ add-mod_right (l - n) c
