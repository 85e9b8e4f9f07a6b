-- ===== src/Base/Assoc.antt =====
-- Association lists by number, in the order of insertion: a `std::unordered_map` by id.
use Prim.Native.Nat.{ℕ, ◌+◌, ◌≤◌}
use mathlib.Core.Path.{◌≡◌, refl}
use mathlib.Core.List.{List, [], ◌∷◌}
use mathlib.Core.Option.{Option, none, some}
use native.Mathlib.Omega.{arith}
use e_trace_gen_e_bpfevent_t.Base.Tests.{◌==◌, if◌then◌else◌}
use e_trace_gen_e_bpfevent_t.Base.Lists.{length}

module _ {ℓ} {V : Type ℓ} where
  unfoldable pub find : ℕ → List (ℕ × V) → Option V
  find k [] = none
  find k ((j, v) ∷ m) = if j == k then some v else find k m

  -- Replaces the entry of the key where it stands.
  unfoldable pub insert : ℕ → V → List (ℕ × V) → List (ℕ × V)
  insert k v [] = (k, v) ∷ []
  insert k v ((j, w) ∷ m) = if j == k then (k, v) ∷ m else (j, w) ∷ insert k v m

  unfoldable pub erase : ℕ → List (ℕ × V) → List (ℕ × V)
  erase k [] = []
  erase k ((j, v) ∷ m) = if j == k then erase k m else (j, v) ∷ erase k m

  pub find-insert :
      (i k : ℕ) (v : V) (m : List (ℕ × V))
      → find i (insert k v m) ≡ (if k == i then some v else find i m)
  unfolding find insert
  find-insert i k v [] = refl
  find-insert i k v ((j, w) ∷ m) = ground (arith, find-insert i k v m)

  pub find-erase :
      (i k : ℕ) (m : List (ℕ × V)) → find i (erase k m) ≡ (if k == i then none else find i m)
  unfolding find erase
  find-erase i k [] = ground arith
  find-erase i k ((j, w) ∷ m) = ground (arith, find-erase i k m)

  pub length-insert-le : (k : ℕ) (v : V) (m : List (ℕ × V)) → length (insert k v m) ≤ length m + 1
  unfolding insert
  length-insert-le k v [] = omega arith
  length-insert-le k v ((j, w) ∷ m) = ground (arith, length-insert-le k v m)

  -- An entry that is replaced adds none.
  pub length-insert_found :
      (k : ℕ) (v w : V) (m : List (ℕ × V)) → find k m ≡ some w → length (insert k v m) ≡ length m
  unfolding find insert
  length-insert_found k v w [] h = cc
  length-insert_found k v w ((j, u) ∷ m) h = ground (arith, length-insert_found k v w m)

  pub length-erase-le : (k : ℕ) (m : List (ℕ × V)) → length (erase k m) ≤ length m
  unfolding erase
  length-erase-le k [] = omega arith
  length-erase-le k ((j, w) ∷ m) = ground (arith, length-erase-le k m)

  pub length-erase_found :
      (k : ℕ) (w : V) (m : List (ℕ × V)) → find k m ≡ some w → length (erase k m) + 1 ≤ length m
  unfolding find erase
  length-erase_found k w [] h = cc
  length-erase_found k w ((j, u) ∷ m) h =
      ground (arith, length-erase_found k w m, length-erase-le k m)

module _ {ℓ} {V : Type ℓ} where
  -- No key has two entries.
  unfoldable pub IsUnique : List (ℕ × V) → Type ℓ
  unfolding find
  IsUnique [] = Unit
  IsUnique ((k, v) ∷ m) = (find k m ≡ none) × IsUnique m

  pub insert-IsUnique : (k : ℕ) (v : V) (m : List (ℕ × V)) → IsUnique m → IsUnique (insert k v m)
  unfolding IsUnique insert
  insert-IsUnique k v [] u = (refl, tt)
  insert-IsUnique k v ((j, w) ∷ m) u =
      ground (arith, find-insert j k v m, insert-IsUnique k v m u.1)

  pub erase-IsUnique : (k : ℕ) (m : List (ℕ × V)) → IsUnique m → IsUnique (erase k m)
  unfolding IsUnique erase
  erase-IsUnique k [] u = tt
  erase-IsUnique k ((j, w) ∷ m) u = ground (arith, find-erase j k m, erase-IsUnique k m u.1)
