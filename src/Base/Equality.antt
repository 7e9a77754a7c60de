-- ===== src/Base/Equality.antt =====
-- Decided equality as an interface, with one Boolean operator for every type that has it.
use Prim.Native.Nat.{ℕ}
use Prim.Native.String.{String}
use mathlib.Core.Path.{◌≡◌, ap, refl}
use mathlib.Core.Logic.{◌↔◌}
use mathlib.Core.Bool.{Bool, true, false, false≢true}
use text.Mathlib.Text.{◌==◌ as str_eq}
use text.Mathlib.TextEquality.{eq_iff}
use native.Mathlib.Decide.{ℕ_discrete}

decision : {P : Type 0} (b : Bool) → (b ≡ true) ↔ P → Dec P
decision true e = yes (e.0 refl)
decision false e = no (λ p. false≢true (e.1 p))

unfoldable pub text_discrete : Discrete String
unfolding decision
text_discrete s t = decision (str_eq s t) (eq_iff s t)

pub record Eq (A : Type 0) : Type 0 where
  pub dec : Discrete A

instance abbrev pub string_eq : Eq String
string_eq = record { dec = text_discrete }

instance abbrev pub nat_eq : Eq ℕ
nat_eq = record { dec = ℕ_discrete }

infix 50 ◌==◌
abbrev pub ◌==◌ : {A : Type 0} ⦃e : Eq A⦄ → A → A → Bool
◌==◌ ⦃e⦄ a b = elim (e.dec a b) [ yes _ ↦ true | no _ ↦ false ]

-- Two names that go together, such as a namespace and a key.
unfoldable pub pair_discrete : {A B : Type 0} → Discrete A → Discrete B → Discrete (A × B)
pair_discrete da db p q = elim (da p.0 q.0) [
  | yes x ↦ elim (db p.1 q.1) [
    | yes y ↦ yes (λ i. (x i, y i))
    | no y ↦ no (λ e. y (ap (λ r. r.1) e))
  ]
  | no x ↦ no (λ e. x (ap (λ r. r.0) e))
]

-- What the tests by evaluation compute with.
unfoldable pub runs : Unit {0}
unfolding text_discrete ℕ_discrete pair_discrete
runs = tt
