-- ===== src/Base/Cells.antt =====
-- Reading lists after a write, and at an index.
use Prim.Native.Nat.{ℕ, zero, suc, ◌<◌}
use mathlib.Core.Path.{◌≡◌, refl, ap}
use mathlib.Core.Logic.{◌≢◌}
use mathlib.Core.List.{List, [], ◌∷◌}
use native.Mathlib.Omega.{arith}
use e_trace_gen_e_bpfevent_t.Base.Lists.{length, set, get_or, drop}

pub get_or-set : (xs : List ℕ) (i v d : ℕ) → i < length xs → get_or (set xs i v) i d ≡ v
get_or-set [] i v d h = absurd (omega arith)
get_or-set (x ∷ xs) zero v d h = refl
get_or-set (x ∷ xs) (suc i) v d h = get_or-set xs i v d (omega arith)

pub get_or-set_other : (xs : List ℕ) (i j v : ℕ) → i ≢ j → get_or (set xs j v) i 0 ≡ get_or xs i 0
get_or-set_other [] zero zero v h = absurd (h refl)
get_or-set_other [] zero (suc j) v h = refl
get_or-set_other [] (suc i) zero v h = refl
get_or-set_other [] (suc i) (suc j) v h = get_or-set_other [] i j v (λ same. h (ap suc same))
get_or-set_other (x ∷ xs) zero zero v h = absurd (h refl)
get_or-set_other (x ∷ xs) zero (suc j) v h = refl
get_or-set_other (x ∷ xs) (suc i) zero v h = refl
get_or-set_other (x ∷ xs) (suc i) (suc j) v h = get_or-set_other xs i j v (λ same. h (ap suc same))

module _ {ℓ} {A : Type ℓ} where
  -- The rest of a list from an index on.
  pub drop_step :
      (xs : List A) (i : ℕ) (d : A) → i < length xs → drop i xs ≡ get_or xs i d ∷ drop (suc i) xs
  drop_step [] i d h = absurd (omega arith)
  drop_step (x ∷ xs) zero d h = refl
  drop_step (x ∷ xs) (suc i) d h = drop_step xs i d (omega arith)
