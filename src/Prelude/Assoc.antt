-- ===== src/Prelude/Assoc.antt =====
-- A Go map from strings, as a list of entries. Its operations keep the order of the entries.
use mathlib.Core.Path.{◌≡◌, refl}
use mathlib.Core.List.{List, [], ◌∷◌}
use mathlib.Core.Option.{Option, none, some}
use native.Mathlib.Omega.{arith}
use elastic_agent_libs.Prelude.Tests.{if◌then◌else◌}
use elastic_agent_libs.Prelude.Strings.{Bytes, eq_bytes, eq_bytes_iff}

abbrev pub Assoc {ℓ} : Type ℓ → Type ℓ
Assoc V = List (Bytes × V)

module _ {ℓ} {V : Type ℓ} where
  -- `m[k]`, with the `ok` of its two-valued form.
  unfoldable pub find : Bytes → Assoc V → Option V
  find k [] = none
  find k ((j, v) ∷ m) = if eq_bytes j k then some v else find k m

  -- `m[k] = v`.
  unfoldable pub write : Bytes → V → Assoc V → Assoc V
  write k v [] = (k, v) ∷ []
  write k v ((j, w) ∷ m) = if eq_bytes j k then (j, v) ∷ m else (j, w) ∷ write k v m

  -- `delete(m, k)`.
  unfoldable pub erase : Bytes → Assoc V → Assoc V
  erase k [] = []
  erase k ((j, v) ∷ m) = let rest = erase k m in if eq_bytes j k then rest else (j, v) ∷ rest

  pub find-write :
      (k j : Bytes) (v : V) (m : Assoc V)
      → find j (write k v m) ≡ (if eq_bytes k j then some v else find j m)
  unfolding find write
  find-write k j v [] = refl
  find-write k j v ((i, w) ∷ m) =
      ground (arith, eq_bytes_iff k j, eq_bytes_iff i k, eq_bytes_iff i j, find-write k j v m)

  pub find-erase :
      (k j : Bytes) (m : Assoc V) → find j (erase k m) ≡ (if eq_bytes k j then none else find j m)
  unfolding find erase
  find-erase k j [] = ground arith
  find-erase k j ((i, w) ∷ m) =
      ground (arith, eq_bytes_iff k j, eq_bytes_iff i k, eq_bytes_iff i j, find-erase k j m)
