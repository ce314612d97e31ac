-- ===== src/Rotate/Names/RoundTrip.antt =====
-- The names of file/rotator.go read back: the order of a rotated file's name, and the order of the
-- names of one date.
use elastic_agent_libs.Prelude.{
  ℕ, ◌+◌, ◌-◌, ◌≤◌, ◌<◌, Bytes, atoi, [], ◌∷◌, ◌++◌, length, length-append, take, drop, true, none,
  some, ok, ◌>>=◌, lt→ltb, ◌≡◌, ◌↔◌, ◌⊎◌, refl, ap, ◌∙◌, arith,
}
use mathlib.Core.Path.{subst}
use elastic_agent_libs.Prelude.Assoc.{find}
use elastic_agent_libs.Rotate.Trigger.{Time}
use elastic_agent_libs.Rotate.Names.{
  Formats, LogOrder, DateRotator, after, slice, date_len, prefix_len, filename_len,
  is_filename_with_index, filename_index, index_number, cache, order_index, order_log, indexed_name,
}

-- `After` compares the dates first and the indices of one date second.
pub after_lexicographic :
    (o p : LogOrder)
    → (after o p ≡ true)
      ↔ ((o.datetime < p.datetime) ⊎ ((o.datetime ≡ p.datetime) × (o.index < p.index)))
unfolding after
after_lexicographic o p = ground arith

take-append : (p r : Bytes) → take (length p) (p ++ r) ≡ p
take-append [] r = refl
take-append (c ∷ p) r = ap (λ x. c ∷ x) (take-append p r)

drop-append : (p r : Bytes) → drop (length p) (p ++ r) ≡ r
drop-append [] r = refl
drop-append (c ∷ p) r = drop-append p r

slice-eq-ok : (s : Bytes) (a n : ℕ) → a + n ≤ length s → slice s a (a + n) ≡ ok (take n (drop a s))
unfolding slice
slice-eq-ok s a n k = let e : (a + n) - a ≡ n = omega arith in rw e (ground arith)

-- What lies between two texts.
slice-middle : (p q r : Bytes) → slice (p ++ (q ++ r)) (length p) (length p + length q) ≡ ok q
slice-middle p q r =
    slice-eq-ok (p ++ (q ++ r)) (length p) (length q)
      (omega (arith, length-append p (q ++ r), length-append q r))
    ∙ ap ok (ap (take (length q)) (drop-append p (q ++ r)) ∙ take-append q r)

append_assoc : (p q r : Bytes) → (p ++ q) ++ r ≡ p ++ (q ++ r)
append_assoc [] q r = refl
append_assoc (c ∷ p) q r = ap (λ x. c ∷ x) (append_assoc p q r)

-- What lies between a byte behind two texts and a text at the end.
slice-inner :
    (p q mid r : Bytes) (c : ℕ) {a b : ℕ}
    → a ≡ length p + length q + 1
    → b ≡ a + length mid
    → slice (p ++ (q ++ (c ∷ (mid ++ r)))) a b ≡ ok mid
slice-inner p q mid r c {a} {b} e f =
    let len : length (p ++ (q ++ (c ∷ []))) ≡ a =
      omega (arith, length-append p (q ++ (c ∷ [])), length-append q (c ∷ [])) in
    let whole : (p ++ (q ++ (c ∷ []))) ++ (mid ++ r) ≡ p ++ (q ++ (c ∷ (mid ++ r))) =
      append_assoc p (q ++ (c ∷ [])) (mid ++ r)
      ∙ ap (λ x. p ++ x) (append_assoc q (c ∷ []) (mid ++ r)) in
    subst (λ n. slice (p ++ (q ++ (c ∷ (mid ++ r)))) n b ≡ ok mid) len
      (subst (λ n. slice (p ++ (q ++ (c ∷ (mid ++ r)))) (length (p ++ (q ++ (c ∷ [])))) n ≡ ok mid)
        (omega (arith, len, f))
        (subst
          (λ s.
            slice s (length (p ++ (q ++ (c ∷ [])))) (length (p ++ (q ++ (c ∷ []))) + length mid)
            ≡ ok mid)
          whole (slice-middle (p ++ (q ++ (c ∷ []))) mid r)))

length-indexed :
    (p q mid r : Bytes) (c : ℕ)
    → length (p ++ (q ++ (c ∷ (mid ++ r)))) ≡ length p + length q + 1 + length mid + length r
length-indexed p q mid r c = omega (
  arith,
  length-append p (q ++ (c ∷ (mid ++ r))),
  length-append q (c ∷ (mid ++ r)),
  length-append mid r,
)

filename_index-eq-ok :
    (d : DateRotator) (name s : Bytes)
    → slice name (filename_len d + 1) (length name - length d.extension) ≡ ok s
    → filename_index d name ≡ ok (index_number s)
unfolding filename_index
filename_index-eq-ok d name s h = rw (h, filename_index, ◌>>=◌) refl

-- The index of a name that has one.
index-indexed_name :
    (formats : Formats) (d : DateRotator) (t : Time) (i : ℕ)
    → length (formats.format t) ≡ date_len
    → filename_index d (indexed_name formats d t i) ≡ ok (index_number (formats.itoa i))
index-indexed_name formats d t i e =
    filename_index-eq-ok d (indexed_name formats d t i) (formats.itoa i) (
      slice-inner d.filename_prefix (formats.format t) (formats.itoa i) d.extension b'-'
        (omega (arith, e))
        (omega (
          arith,
          e,
          length-indexed d.filename_prefix (formats.format t) (formats.itoa i) d.extension b'-',
        )))

order_index-eq-ok :
    (d : DateRotator) (name : Bytes) (day n : ℕ)
    → is_filename_with_index d name ≡ true
    → filename_index d name ≡ ok (some n)
    → order_index d name day ≡ ok (cache name (record { index = n; datetime = day }) d)
unfolding order_index
order_index-eq-ok d name day n long i = rw long (rw (i, ◌>>=◌) refl)

-- The steps of `OrderLog` for a name that the cache does not hold.
order_log-fresh :
    (formats : Formats) (d : DateRotator) (name s : Bytes) (day n : ℕ)
    → find name d.log_order_cache ≡ none
    → slice name (prefix_len d) (filename_len d) ≡ ok s
    → formats.parse s ≡ some day
    → is_filename_with_index d name ≡ true
    → filename_index d name ≡ ok (some n)
    → order_log formats d name ≡ ok (cache name (record { index = n; datetime = day }) d)
unfolding order_log
order_log-fresh formats d name s day n free date p long i =
    rw (free, order_log) (rw (date, ◌>>=◌) (rw p (order_index-eq-ok d name day n long i)))

index_number-atoi : (s : Bytes) {n : ℕ} → atoi s ≡ some n → index_number s ≡ some n
unfolding atoi
index_number-atoi [] h = cc
index_number-atoi (c ∷ cs) h = h

-- A name that the rotator gives to a file of the date `t` with the index `i` is read back as that
-- date and that index, and the order is kept, where the date has eight bytes and is read back, the
-- number is read back, and the name has not been kept before.
pub order_log-indexed_name :
    (formats : Formats) (d : DateRotator) (t : Time) (i : ℕ) {day : ℕ}
    → length (formats.format t) ≡ date_len
    → formats.parse (formats.format t) ≡ some day
    → atoi (formats.itoa i) ≡ some i
    → find (indexed_name formats d t i) d.log_order_cache ≡ none
    → order_log formats d (indexed_name formats d t i)
      ≡ ok (cache (indexed_name formats d t i) (record { index = i; datetime = day }) d)
unfolding order_log
order_log-indexed_name formats d t i {day} e p n free =
    let date = formats.format t in
    let number = formats.itoa i in
    let ext = d.extension in
    order_log-fresh formats d (indexed_name formats d t i) date day i free
      (subst (λ k. slice (indexed_name formats d t i) (prefix_len d) (prefix_len d + k) ≡ ok date) e
        (slice-middle d.filename_prefix date (b'-' ∷ (number ++ ext))))
      p (lt→ltb _ _ (omega (arith, e, length-indexed d.filename_prefix date number ext b'-')))
      (index-indexed_name formats d t i e ∙ ap ok (index_number-atoi number n))
