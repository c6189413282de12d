-- ===== src/Filter/Tree/Outcomes.antt =====
-- The laws of `>>=` on the results of the compiler.
use dots_rust.Prelude.{◌≡◌, refl, arith}
use dots_rust.Filter.Compile.{Outcome, ok, err, exhausted, ◌>>=◌}

module _ {ℓ κ} {A : Type ℓ} {B : Type κ} where
  pub bind_assoc {μ} :
      {C : Type μ} (m : Outcome A) (f : A → Outcome B) (g : B → Outcome C)
      → m >>= f >>= g ≡ m >>= (λ a. f a >>= g)
  bind_assoc (ok a) f g = refl
  bind_assoc (err e) f g = refl
  bind_assoc exhausted f g = refl

  -- Two continuations that agree on what comes out.
  pub bind_congr :
      (m : Outcome A) (f g : A → Outcome B) → ((a : A) → m ≡ ok a → f a ≡ g a) → m >>= f ≡ m >>= g
  bind_congr (ok a) f g h = h a refl
  bind_congr (err e) f g h = refl
  bind_congr exhausted f g h = refl

  -- What a step that came out well went through.
  pub bind-ok :
      (m : Outcome A) (f : A → Outcome B) (b : B)
      → m >>= f ≡ ok b
      → (a : A) × (m ≡ ok a) × (f a ≡ ok b)
  bind-ok (ok a) f b h = (a, refl, h)
  bind-ok (err e) f b h = absurd (ground arith)
  bind-ok exhausted f b h = absurd (ground arith)

pub ok-injective {ℓ} : {A : Type ℓ} {a b : A} → ok a ≡ ok b → a ≡ b
ok-injective h = ground arith
