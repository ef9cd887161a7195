-- ===== src/Gitops/Apply/Outcome.antt =====
-- The results of the executors in daemon/internal/gitops/apply.go: state passing with errors.
use d_plane_os.Prelude.{ℕ, Str, Option, if◌then◌else◌}
use d_plane_os.Gitops.State.{ResourceKind, BlockReason}
use d_plane_os.Gitops.System.{World, Reply}

-- The errors, with the values that their texts show.
pub data ApplyError : Type 0 where
  has_blocked : ResourceKind → Str → Option BlockReason → ApplyError
  no_spec : Str → ApplyError
  not_by_id : Str → ApplyError
  command_failed : Str → ApplyError
  database_failed : Str → ApplyError
  pool_has_data : Str → Str → ℕ → ApplyError
  dataset_has_data : Str → ℕ → ApplyError
  share_in_use : Str → ApplyError

pub data Outcome {ℓ} (A : Type ℓ) : Type ℓ where
  ok : A → Outcome A
  err : ApplyError → Outcome A

-- An action on the world that may return an error; what it did before stays done.
abbrev pub Action : Type 0 → Type 0
Action A = World → Outcome A × World

infixl 5 ◌>>=◌ ◌>>◌
abbrev pub ◌>>=◌ : {A B : Type 0} → Action A → (A → Action B) → Action B
◌>>=◌ m f w = let (r, w') = m w in elim r [ ok a ↦ f a w' | err e ↦ (err e, w') ]

abbrev pub ◌>>◌ : {A B : Type 0} → Action A → Action B → Action B
m >> n = m >>= λ _. n

abbrev pub done : Action (Unit {0})
done w = (ok tt, w)

abbrev pub fail : ApplyError → Action (Unit {0})
fail e w = (err e, w)

-- A step without an error of its own.
abbrev pub ask : {A : Type 0} → (World → A × World) → Action A
ask f w = let (a, w') = f w in (ok a, w')

-- `if err != nil { return e }`
abbrev pub check : ApplyError → Reply → Action (Unit {0})
check e r w = if r.failed then (err e, w) else (ok tt, w)
