-- ===== src/Buffer/View.antt =====
-- The ring buffer as a bounded queue: what `getAll` returns is the last entries added, oldest first.
use mathlib.Core.List.{append-nil, append_assoc}
use mathlib.Core.Path.{ap₂}
use elastic_agent_libs.Prelude.{
  ℕ, zero, suc, ◌≤◌, ◌<◌, Bool, true, false, List, [], ◌∷◌, ◌++◌, Option, ◌≡◌, refl, ap, sym, ◌∙◌,
  arith, ltb, if◌then◌else◌, length, set, take, drop, length-append,
}
use elastic_agent_libs.Buffer.{get_all}

module _ {A : Type 0} where
  -- The abstract queue of at most `size` items: a push into a full queue drops the oldest item.
  unfoldable pub push : ℕ → List A → A → List A
  push size q x = if ltb (length q) size then q ++ x ∷ [] else drop 1 q ++ x ∷ []

  take-set :
      (e : List A) (i : ℕ) (x : A) → i < length e → take (suc i) (set e i x) ≡ take i e ++ x ∷ []
  take-set [] i x h = absurd (omega arith)
  take-set (y ∷ e) zero x h = refl
  take-set (y ∷ e) (suc i) x h = ap (◌∷◌ y) (take-set e i x (omega arith))

  drop-set : (e : List A) (i : ℕ) (x : A) → drop (suc i) (set e i x) ≡ drop (suc i) e
  drop-set [] i x = refl
  drop-set (y ∷ e) zero x = refl
  drop-set (y ∷ e) (suc i) x = drop-set e i x

  set_last : (e : List A) (i : ℕ) (x : A) → suc i ≡ length e → set e i x ≡ take i e ++ x ∷ []
  set_last [] i x h = absurd (omega arith)
  set_last (y ∷ []) zero x h = refl
  set_last (y ∷ z ∷ e) zero x h = absurd (omega arith)
  set_last (y ∷ e) (suc i) x h = ap (◌∷◌ y) (set_last e i x (omega arith))

  drop_all : (e : List A) (i : ℕ) → length e ≤ i → drop i e ≡ []
  drop_all [] zero h = refl
  drop_all [] (suc i) h = refl
  drop_all (y ∷ e) zero h = absurd (omega arith)
  drop_all (y ∷ e) (suc i) h = drop_all e i (omega arith)

  -- The oldest item of a turned list stands first.
  drop-rotate : (e t : List A) (i : ℕ) → i < length e → drop 1 (drop i e ++ t) ≡ drop (suc i) e ++ t
  drop-rotate [] t i h = absurd (omega arith)
  drop-rotate (y ∷ e) t zero h = refl
  drop-rotate (y ∷ e) t (suc i) h = drop-rotate e t i (omega arith)

  length-take_le : (e : List A) (i : ℕ) → i ≤ length e → length (take i e) ≡ i
  length-take_le e zero h = refl
  length-take_le [] (suc i) h = absurd (omega arith)
  length-take_le (y ∷ e) (suc i) h = ap suc (length-take_le e i (omega arith))

  length-rotate : (e : List A) (i : ℕ) → i ≤ length e → length (drop i e ++ take i e) ≡ length e
  length-rotate e zero h = ap length (append-nil e)
  length-rotate [] (suc i) h = absurd (omega arith)
  length-rotate (y ∷ e) (suc i) h = omega (
    arith,
    length-append (drop i e) (y ∷ take i e),
    length-append (drop i e) (take i e),
    length-rotate e i (omega arith),
  )

abbrev pub view_of : {A : Type 0} → List A → ℕ → Bool → List A
view_of e i true = drop i e ++ take i e
view_of e i false = take i e

module _ {A : Type 0} where
  pub get_all-view :
      (e : List (Option A)) (i : ℕ) (full : Bool)
      → get_all (record { entries = e; i = i; full = full }) ≡ view_of e i full
  unfolding get_all
  get_all-view e zero false = refl
  get_all-view e zero true = sym (append-nil e)
  get_all-view e (suc i) false = ground arith
  get_all-view e (suc i) true = ground arith

  -- A push onto what the buffer shows, where the write pointer does not wrap around.
  pub push-inside :
      (e : List (Option A)) (i : ℕ) (full : Bool) (x : Option A)
      → suc i < length e
      → view_of (set e i x) (suc i) full ≡ push (length e) (view_of e i full) x
  unfolding push
  push-inside e i false x h =
      take-set e i x (omega arith) ∙ ground (arith, length-take_le e i (omega arith))
  push-inside e i true x h =
      ap₂ ◌++◌ (drop-set e i x) (take-set e i x (omega arith))
      ∙ sym (append_assoc (drop (suc i) e) (take i e) (x ∷ []))
      ∙ ap (λ (l : List (Option A)). l ++ x ∷ []) (sym (drop-rotate e (take i e) i (omega arith)))
      ∙ ground (arith, length-rotate e i (omega arith))

  pub push-wrap :
      (e : List (Option A)) (i : ℕ) (full : Bool) (x : Option A)
      → suc i ≡ length e
      → set e i x ≡ push (length e) (view_of e i full) x
  unfolding push
  push-wrap e i false x h = set_last e i x h ∙ ground (arith, length-take_le e i (omega arith))
  push-wrap e i true x h =
      set_last e i x h
      ∙ ap (λ (l : List (Option A)). (l ++ take i e) ++ x ∷ [])
          (sym (drop_all e (suc i) (omega arith)))
      ∙ ap (λ (l : List (Option A)). l ++ x ∷ []) (sym (drop-rotate e (take i e) i (omega arith)))
      ∙ ground (arith, length-rotate e i (omega arith))
