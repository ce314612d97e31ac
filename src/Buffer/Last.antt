-- ===== src/Buffer/Last.antt =====
-- After any calls of `add`, `getAll` returns the last entries.
use native.Mathlib.Nat.{mod-eq_of_lt}
use native.Mathlib.Numerals.{add-one}
use native.Mathlib.Decide.{dec_lt}
use mathlib.Core.List.{append-nil, append_assoc, map-append}
use elastic_agent_libs.Prelude.{
  ℕ, zero, suc, ◌+◌, ◌-◌, ◌%◌, ◌≤◌, ◌<◌, Bool, true, false, List, [], ◌∷◌, ◌++◌, Option, none, some,
  map, ◌≡◌, refl, ap, sym, ◌∙◌, arith, length, set, drop, length-append, length-set,
  length-replicate, length-map, inl, inr, ◌⊎◌,
}
use elastic_agent_libs.Buffer.{RingBuffer, new_buffer, add, advance, get_all, add_all}
use elastic_agent_libs.Buffer.View.{push, get_all-view, push-inside, push-wrap}

module _ {A : Type 0} where
  advance-inside :
      (e : List (Option A)) (i : ℕ) (full : Bool)
      → suc i < length e
      → advance (record { entries = e; i = i; full = full })
        ≡ record { entries = e; i = suc i; full = full }
  unfolding advance
  advance-inside e i full h = rw (add-one, mod-eq_of_lt h) (ground arith)

  advance-wrap :
      (e : List (Option A)) (i : ℕ) (full : Bool)
      → suc i ≡ length e
      → advance (record { entries = e; i = i; full = full })
        ≡ record { entries = e; i = 0; full = true }
  unfolding advance
  advance-wrap e i full h = let z : (i + 1) % length e ≡ 0 = grind arith in rw z

  -- What one `add` does: it succeeds, the buffer shows one more entry, and is as long as before.
  pub record Added (r : RingBuffer A) (x : A) : Type 0 where
    pub after : RingBuffer A
    pub is : add r x ≡ some after
    pub shows : get_all after ≡ push (length r.entries) (get_all r) (some x)
    pub as_long : length after.entries ≡ length r.entries
    pub fits : after.i < length r.entries

  add-advance :
      (r : RingBuffer A) (x : A)
      → r.i < length r.entries
      → add r x ≡ some (advance (record r { entries = set r.entries r.i (some x) }))
  unfolding add
  add-advance r x h = ground arith

  pub add-Added : (r : RingBuffer A) (x : A) → r.i < length r.entries → Added r x
  add-Added r x h = elim (next (suc r.i) (length r.entries) h) [
    | inl inside ↦ record {
      after = record { entries = written; i = suc r.i; full = r.full };
      is = add-advance r x h ∙ ap some (advance-inside written r.i r.full (rw as_long inside));
      shows =
          get_all-view written (suc r.i) r.full
          ∙ push-inside r.entries r.i r.full (some x) inside
          ∙ ap (λ (q : List (Option A)). push (length r.entries) q (some x))
              (sym (get_all-view r.entries r.i r.full));
      as_long = as_long;
      fits = inside;
    }
    | inr wraps ↦ record {
      after = record { entries = written; i = 0; full = true };
      is = add-advance r x h ∙ ap some (advance-wrap written r.i r.full (wraps ∙ sym as_long));
      shows =
          get_all-view written 0 true
          ∙ append-nil written
          ∙ push-wrap r.entries r.i r.full (some x) wraps
          ∙ ap (λ (q : List (Option A)). push (length r.entries) q (some x))
              (sym (get_all-view r.entries r.i r.full));
      as_long = as_long;
      fits = omega arith;
    }
  ]
    where
      written : List (Option A)
      written = set r.entries r.i (some x)

      as_long : length written ≡ length r.entries
      as_long = length-set r.entries r.i (some x)

      next : (a b : ℕ) → a ≤ b → (a < b) ⊎ (a ≡ b)
      next a b e = elim (dec_lt a b) [ yes p ↦ inl p | no p ↦ inr (omega arith) ]

  -- The last `n` items.
  abbrev pub last : ℕ → List A → List (Option A)
  last n xs = map some (drop (length xs - n) xs)

  length-drop : (i : ℕ) (xs : List A) → length (drop i xs) ≡ length xs - i
  length-drop zero xs = omega arith
  length-drop (suc i) [] = omega arith
  length-drop (suc i) (y ∷ xs) = omega (arith, length-drop i xs)

  drop-append : (i : ℕ) (xs ys : List A) → i ≤ length xs → drop i (xs ++ ys) ≡ drop i xs ++ ys
  drop-append zero xs ys h = refl
  drop-append (suc i) [] ys h = absurd (omega arith)
  drop-append (suc i) (y ∷ xs) ys h = drop-append i xs ys (omega arith)

  drop-drop : (i : ℕ) (xs : List A) → drop 1 (drop i xs) ≡ drop (suc i) xs
  drop-drop zero xs = refl
  drop-drop (suc i) [] = refl
  drop-drop (suc i) (y ∷ xs) = drop-drop i xs

  drop-nil : (i : ℕ) → drop {A = A} i [] ≡ []
  drop-nil zero = refl
  drop-nil (suc i) = refl

  drop-map :
      (i : ℕ) (xs : List A)
      → drop i (map (λ (a : A). some a) xs) ≡ map (λ (a : A). some a) (drop i xs)
  drop-map zero xs = refl
  drop-map (suc i) [] = refl
  drop-map (suc i) (y ∷ xs) = drop-map i xs

  push-full :
      (n : ℕ) (q : List (Option A)) (y : Option A) → length q ≡ n → push n q y ≡ drop 1 q ++ y ∷ []
  unfolding push
  push-full n q y h = ground arith

  push-last :
      (n : ℕ) (xs : List A) (x : A) → 0 < n → push n (last n xs) (some x) ≡ last n (xs ++ x ∷ [])
  unfolding push
  push-last n xs x h = elim (dec_lt (length xs) n) [
    | yes room ↦
        let none_lost : length xs - n ≡ 0 = omega arith in
        let none_lost' : length (xs ++ x ∷ []) - n ≡ 0 = omega (arith, length-append xs (x ∷ [])) in
        rw (none_lost, none_lost', map-append) (ground (arith, length-map xs (λ (a : A). some a)))
    | no full ↦
        let k = length xs - n in
        let one_lost : length (xs ++ x ∷ []) - n ≡ suc k =
          omega (arith, length-append xs (x ∷ [])) in
        let q = map (λ (a : A). some a) (drop k xs) in
        push-full n q (some x)
          (length-map (drop k xs) (λ (a : A). some a) ∙ length-drop k xs ∙ omega arith)
        ∙ ap (λ (l : List (Option A)). l ++ some x ∷ [])
            (drop-map 1 (drop k xs) ∙ ap (map (λ (a : A). some a)) (drop-drop k xs))
        ∙ rw (one_lost, drop-append (suc k) xs (x ∷ []) (omega arith), map-append)
  ]

  add_all-last :
      (xs ys : List A) (r : RingBuffer A)
      → r.i < length r.entries
      → get_all r ≡ last (length r.entries) ys
      → (r' : RingBuffer A) × (add_all r xs ≡ some r')
        × (get_all r' ≡ last (length r.entries) (ys ++ xs))
  unfolding add_all
  add_all-last [] ys r h e = (r, refl, e ∙ ap (last (length r.entries)) (sym (append-nil ys)))
  add_all-last (x ∷ xs) ys r h e =
      let a = add-Added r x h in
      let shows : get_all a.after ≡ last (length a.after.entries) (ys ++ x ∷ []) = rw a.as_long (
        a.shows
        ∙ ap (λ (q : List (Option A)). push (length r.entries) q (some x)) e
        ∙ push-last (length r.entries) ys x (omega arith)) in
      let (r', runs, end) = add_all-last xs (ys ++ x ∷ []) a.after (rw a.as_long a.fits) shows in
      (
        r',
        rw (a.is, add_all) runs,
        end ∙ rw a.as_long (ap (last (length r.entries)) (append_assoc ys (x ∷ []) xs)),
      )

  -- After any calls of `add` on a new buffer with room for at least one entry, none of which panics,
  -- `getAll` returns the last entries added, as many as the buffer has room for, oldest first.
  pub get_all-add_all :
      (n : ℕ) (xs : List A)
      → 0 < n
      → (r : RingBuffer A) × (add_all (new_buffer n) xs ≡ some r) × (get_all r ≡ last n xs)
  unfolding new_buffer
  get_all-add_all n xs h =
      let r : RingBuffer A = new_buffer n in
      let fits : 0 < length r.entries = rw (length-replicate {A = Option A} n none) h in
      let shows : get_all r ≡ last (length r.entries) [] =
        get_all-view r.entries 0 false
        ∙ ap (map (λ (a : A). some a)) (sym (drop-nil (0 - length r.entries))) in
      let (r', runs, shown) = add_all-last xs [] r fits shows in
      (r', runs, shown ∙ ap (λ k. last k xs) (length-replicate {A = Option A} n none))
