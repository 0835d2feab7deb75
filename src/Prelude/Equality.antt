-- ===== src/Prelude/Equality.antt =====
-- Boolean equality as an interface, and membership in a list by it.
use Prim.Native.String.{String}
use mathlib.Core.Path.{◌≡◌, refl}
use mathlib.Core.Logic.{◌↔◌}
use mathlib.Core.Bool.{Bool, true, false, ◌&&◌, ◌||◌}
use mathlib.Core.Option.{Option, none, some}
use mathlib.Core.List.{List, [], ◌∷◌}
use native.Mathlib.Omega.{arith}
use text.Mathlib.Text.{◌==◌ as str_eq}
use text.Mathlib.TextEquality.{eq_iff}

pub record HasEq {ℓ} (A : Type ℓ) : Type ℓ where
  pub eqb : A → A → Bool
  pub eqb_iff : (a b : A) → (eqb a b ≡ true) ↔ (a ≡ b)

infix 50 ◌==◌
abbrev pub ◌==◌ {ℓ} : {A : Type ℓ} ⦃e : HasEq A⦄ → A → A → Bool
◌==◌ ⦃e⦄ = e.eqb

instance abbrev pub string_eq : HasEq String
string_eq = record { eqb = str_eq; eqb_iff = eq_iff }

pub pair_iff {ℓ} :
    {A B : Type ℓ} (e : HasEq A) (f : HasEq B) (p q : A × B)
    → ((e.eqb p.0 q.0 && f.eqb p.1 q.1) ≡ true) ↔ (p ≡ q)
pair_iff e f (a, b) (c, d) = ground (arith, e.eqb_iff a c, f.eqb_iff b d)

-- Tuples compare by their parts.
instance abbrev pub pair_eq {ℓ} : {A B : Type ℓ} ⦃e : HasEq A⦄ ⦃f : HasEq B⦄ → HasEq (A × B)
pair_eq ⦃e⦄ ⦃f⦄ = record { eqb = λ p q. e.eqb p.0 q.0 && f.eqb p.1 q.1; eqb_iff = pair_iff e f }

module _ {ℓ} {A : Type ℓ} ⦃e : HasEq A⦄ where
  -- `a in xs`
  unfoldable pub contains : A → List A → Bool
  contains a [] = false
  contains a (x ∷ xs) = x == a || contains a xs

  pub beq_refl : (a : A) → (a == a) ≡ true
  beq_refl a = (e.eqb_iff a a).1 refl

  -- Equality of optional values, as Python compares with `None`.
  abbrev pub option_beq : Option A → Option A → Bool
  option_beq none none = true
  option_beq none (some b) = false
  option_beq (some a) none = false
  option_beq (some a) (some b) = a == b

  pub option_beq_iff : (a b : Option A) → (option_beq a b ≡ true) ↔ (a ≡ b)
  option_beq_iff none none = ground arith
  option_beq_iff none (some b) = ground arith
  option_beq_iff (some a) none = ground arith
  option_beq_iff (some a) (some b) = ground (arith, e.eqb_iff a b)
