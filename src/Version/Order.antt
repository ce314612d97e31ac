-- ===== src/Version/Order.antt =====
-- The orders of version/version.go against the lexicographic order of the three numbers.
use elastic_agent_libs.Prelude.{
  ◌≤◌, ◌<◌, Bytes, le_bytes, eq_bytes_iff, [], ◌∷◌, Bool, true, false, ◌≡◌, refl, ◌↔◌, ◌⊎◌, inl,
  inr, arith,
}
use elastic_agent_libs.Version.{V, less_than_or_equal, less_than}

-- Lexicographic order of major, minor and bugfix.
abbrev pub Precedes : V → V → Type 0
Precedes v w =
    (v.major < w.major)
    ⊎ ((v.major ≡ w.major) × ((v.minor < w.minor) ⊎ ((v.minor ≡ w.minor) × (v.bugfix < w.bugfix))))

abbrev pub SameNumbers : V → V → Type 0
SameNumbers v w = (v.major ≡ w.major) × (v.minor ≡ w.minor) × (v.bugfix ≡ w.bugfix)

-- Without the meta part, `LessThanOrEqual` is the lexicographic order of the three numbers.
pub less_than_or_equal-Precedes :
    (v w : V) → (less_than_or_equal false v w ≡ true) ↔ (Precedes v w ⊎ SameNumbers v w)
unfolding less_than_or_equal
less_than_or_equal-Precedes v w = (λ h. ground arith, λ h. ground arith)

-- `LessThan` is the strict lexicographic order where the major version of the first does not exceed
-- that of the second.
pub less_than-Precedes : (v w : V) → v.major ≤ w.major → (less_than v w ≡ true) ↔ Precedes v w
unfolding less_than
less_than-Precedes v w h = (λ e. ground arith, λ e. ground arith)

-- The pairs that `LessThan` puts against the order: the major number of the first version is the
-- greater one, the minor numbers are equal and the bugfix numbers are in order.
abbrev pub IsMisordered : V → V → Type 0
IsMisordered v w = (w.major < v.major) × (v.minor ≡ w.minor) × (v.bugfix < w.bugfix)

-- `LessThan` says yes exactly of the versions of which the first precedes the second, and of those
-- where the first has the greater major number, the minor numbers are equal and the bugfix number of the
-- first is the smaller one.
pub less_than-IsMisordered : (v w : V) → (less_than v w ≡ true) ↔ (Precedes v w ⊎ IsMisordered v w)
unfolding less_than
less_than-IsMisordered v w = (λ h. ground arith, λ h. ground arith)

le_bytes_total : (a b : Bytes) → (le_bytes a b ≡ true) ⊎ (le_bytes b a ≡ true)
unfolding le_bytes
le_bytes_total [] b = inl refl
le_bytes_total (x ∷ a) [] = inr refl
le_bytes_total (x ∷ a) (y ∷ b) = ground (arith, le_bytes_total a b)

-- `LessThanOrEqual` compares any two versions in one of the two directions, with the meta part or not.
pub less_than_or_equal_total :
    (with_meta : Bool) (v w : V)
    → (less_than_or_equal with_meta v w ≡ true) ⊎ (less_than_or_equal with_meta w v ≡ true)
unfolding less_than_or_equal
less_than_or_equal_total false v w = ground arith
less_than_or_equal_total true v w =
    ground (arith, le_bytes_total v.meta w.meta, eq_bytes_iff v.version w.version)
