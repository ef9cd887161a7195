-- ===== src/Gitops/Yaml/Result.antt =====
-- The outcome of the YAML reader.
use d_plane_os.Prelude.{ℕ, Str, List, ◌≡◌, ◌≢◌, refl}
use d_plane_os.Gitops.Validate.{StateError}

pub data YamlError : Type 0 where
  expected_key_value : ℕ → Str → YamlError
  invalid_sequence : ℕ → Str → YamlError
  not_a_sequence : Str → YamlError
  not_a_mapping : Str → ℕ → YamlError
  options_not_a_mapping : Str → YamlError
  validation : List StateError → YamlError

-- `out_of_fuel` has no counterpart in the source.
pub data Parsed {ℓ} (A : Type ℓ) : Type ℓ where
  ok : A → Parsed A
  err : YamlError → Parsed A
  out_of_fuel : Parsed A

infixl 5 ◌>>=◌
abbrev pub ◌>>=◌ {ℓ κ} : {A : Type ℓ} {B : Type κ} → Parsed A → (A → Parsed B) → Parsed B
ok a >>= f = f a
err e >>= f = err e
out_of_fuel >>= f = out_of_fuel

-- The run stays within its fuel, and `P` holds of its value if it has one.
abbrev pub Ends : {A : Type 0} → (A → Type 0) → Parsed A → Type 0
Ends P (ok a) = P a
Ends P (err e) = Unit
Ends P out_of_fuel = ⊥

module _ {A B : Type 0} (Before : A → Type 0) (After : B → Type 0) where
  pub Ends-bind :
      (first : Parsed A) (next : A → Parsed B)
      → Ends Before first
      → ((x : A) → Before x → Ends After (next x))
      → Ends After (first >>= next)
  Ends-bind (ok x) next held then = then x held
  Ends-bind (err e) next held then = tt
  Ends-bind out_of_fuel next held then = absurd held

pub Ends-weaken :
    {A : Type 0} (P Q : A → Type 0) (r : Parsed A) → Ends P r → ((a : A) → P a → Q a) → Ends Q r
Ends-weaken P Q (ok a) h k = k a h
Ends-weaken P Q (err e) h k = tt
Ends-weaken P Q out_of_fuel h k = absurd h

pub Ends-ne_out_of_fuel : {A : Type 0} (P : A → Type 0) (r : Parsed A) → Ends P r → r ≢ out_of_fuel
Ends-ne_out_of_fuel P (ok a) h e = cc e
Ends-ne_out_of_fuel P (err x) h e = cc e
Ends-ne_out_of_fuel P out_of_fuel h e = h

-- Inversion of a successful bind.
module _ {A B : Type 0} where
  pub >>=-eq-ok :
      (first : Parsed A) (next : A → Parsed B) {y : B}
      → (first >>= next) ≡ ok y
      → (x : A) × (first ≡ ok x) × (next x ≡ ok y)
  >>=-eq-ok (ok x) next e = (x, refl, e)
  >>=-eq-ok (err q) next e = cc
  >>=-eq-ok out_of_fuel next e = cc
