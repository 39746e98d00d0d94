-- ===== src/Float.antt =====
-- IEEE 754 doubles (`f64`), which the processor implements: a carrier and the operations that the
-- modelled code calls. No law is assumed here; a theorem names the ones that it needs.
use franka_rs.Common.{ℕ, Bool, List, [], ◌∷◌}

pub record Float : Type 1 where
  pub F : Type 0
  pub add : F → F → F
  pub sub : F → F → F
  pub mul : F → F → F
  pub div : F → F → F
  pub abs : F → F
  pub neg : F → F
  pub sqrt : F → F
  pub acos : F → F
  -- `f64::min` and `f64::max`
  pub fmin : F → F → F
  pub fmax : F → F → F
  -- `<` and `<=`, false where an operand is NaN
  pub flt : F → F → Bool
  pub fle : F → F → Bool
  pub is_finite : F → Bool
  pub nan : F
  pub frac_pi_2 : F
  pub frac_pi_4 : F
  -- what `Iterator::sum` over doubles starts from
  pub sum_start : F
  -- `decimal m k` is the literal m / 10^k
  pub decimal : ℕ → ℕ → F
  -- `n as f64`
  pub of_ℕ : ℕ → F

-- `[f64; 7]`
pub record Arr7 (A : Type 0) : Type 0 where
  pub a0 : A
  pub a1 : A
  pub a2 : A
  pub a3 : A
  pub a4 : A
  pub a5 : A
  pub a6 : A

module _ {A : Type 0} where
  abbrev pub elements : Arr7 A → List A
  elements v = v.a0 ∷ v.a1 ∷ v.a2 ∷ v.a3 ∷ v.a4 ∷ v.a5 ∷ v.a6 ∷ []

  -- `&v[3..]`
  abbrev pub from3 : Arr7 A → List A
  from3 v = v.a3 ∷ v.a4 ∷ v.a5 ∷ v.a6 ∷ []

  abbrev pub splat : A → Arr7 A
  splat a = record { a0 = a; a1 = a; a2 = a; a3 = a; a4 = a; a5 = a; a6 = a }

abbrev pub zip7 : {A B C : Type 0} → (A → B → C) → Arr7 A → Arr7 B → Arr7 C
zip7 f v w = record {
  a0 = f v.a0 w.a0;
  a1 = f v.a1 w.a1;
  a2 = f v.a2 w.a2;
  a3 = f v.a3 w.a3;
  a4 = f v.a4 w.a4;
  a5 = f v.a5 w.a5;
  a6 = f v.a6 w.a6;
}
