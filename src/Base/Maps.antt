-- ===== src/Base/Maps.antt =====
-- `std::unordered_map` and `std::map` as association lists with one entry for each key.
use Prim.Native.Nat.{ℕ}
use mathlib.Core.Path.{◌≡◌}
use mathlib.Core.List.{List, [], ◌∷◌}
use mathlib.Core.Option.{Option, none, some}
use native.Mathlib.Omega.{arith}
use mathlib.Core.Path.{subst}
use mathlib.Core.Logic.{inl, inr}
use xtracepp.Base.Tests.{◌==◌, ==_iff, Bool-cases, if◌then◌else◌}
use xtracepp.Base.Lists.{All}

some-injective {ℓ} : {A : Type ℓ} {a b : A} → some a ≡ some b → a ≡ b
some-injective same = cc

module _ {ℓ} {V : Type ℓ} where
  unfoldable pub find : ℕ → List (ℕ × V) → Option V
  find k [] = none
  find k ((j, v) ∷ m) = if j == k then some v else find k m

  -- `erase( key )`.
  unfoldable pub erase : ℕ → List (ℕ × V) → List (ℕ × V)
  erase k [] = []
  erase k ((j, v) ∷ m) = if j == k then erase k m else (j, v) ∷ erase k m

  abbrev emplace_at : Option V → ℕ → V → List (ℕ × V) → List (ℕ × V)
  emplace_at none k v m = (k, v) ∷ m
  emplace_at (some w) k v m = m

  -- `emplace( key, value )`, which leaves an entry that is there alone.
  unfoldable pub emplace : ℕ → V → List (ℕ × V) → List (ℕ × V)
  unfolding find
  emplace k v m = emplace_at (find k m) k v m

  pub find-erase :
      (k j : ℕ) (m : List (ℕ × V)) → find j (erase k m) ≡ (if k == j then none else find j m)
  unfolding find erase
  find-erase k j [] = ground arith
  find-erase k j ((i, v) ∷ m) = ground (arith, find-erase k j m)

  -- What a key finds after an `emplace`: the old entry, if there was one.
  pub find-emplace_old :
      (k j : ℕ) (v w : V) (m : List (ℕ × V)) → find k m ≡ some w → find j (emplace k v m) ≡ find j m
  unfolding emplace
  find-emplace_old k j v w m e = rw e

  pub find-emplace_new :
      (k j : ℕ) (v : V) (m : List (ℕ × V))
      → find k m ≡ none
      → find j (emplace k v m) ≡ (if k == j then some v else find j m)
  unfolding emplace
  find-emplace_new k j v m e = rw e

  -- What holds of every entry holds of the one that is found.
  pub find-All {κ} :
      (P : ℕ × V → Type κ) (k : ℕ) (m : List (ℕ × V)) (v : V)
      → All P m
      → find k m ≡ some v
      → P (k, v)
  unfolding find
  find-All P k [] v all e = cc
  find-All P k ((j, w) ∷ m) v all e = elim (Bool-cases (j == k)) [
    | inl here ↦
        let same : w ≡ v = some-injective (rw here at e) in
        subst (λ (u : V). P (k, u)) same (subst (λ (i : ℕ). P (i, w)) ((==_iff j k).0 here) all.0)
    | inr there ↦ find-All P k m v all.1 (rw there at e)
  ]
