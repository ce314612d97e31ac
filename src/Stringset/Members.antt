-- ===== src/Stringset/Members.antt =====
-- The members of the sets of str/stringset.go.
use elastic_agent_libs.Prelude.{
  Bytes, eq_bytes, eq_bytes_iff, not, ◌&&◌, ◌||◌, List, [], ◌∷◌, ◌≡◌, refl, arith,
}
use elastic_agent_libs.Stringset.{has_item, insert_item, insert_all, remove_item}

has_item-insert_item :
    (k s : Bytes) (xs : List Bytes)
    → has_item k (insert_item s xs) ≡ (eq_bytes s k || has_item k xs)
unfolding has_item insert_item
has_item-insert_item k s [] = ground arith
has_item-insert_item k s (x ∷ xs) =
    ground
      (arith, has_item-insert_item k s xs, eq_bytes_iff x s, eq_bytes_iff x k, eq_bytes_iff s k)

has_item-insert_all :
    (k : Bytes) (strings set : List Bytes)
    → has_item k (insert_all strings set) ≡ (has_item k strings || has_item k set)
unfolding has_item insert_all
has_item-insert_all k [] set = refl
has_item-insert_all k (s ∷ strings) set =
    ground (arith, has_item-insert_all k strings (insert_item s set), has_item-insert_item k s set)

has_item-remove_item :
    (k s : Bytes) (xs : List Bytes)
    → has_item k (remove_item s xs) ≡ (not (eq_bytes s k) && has_item k xs)
unfolding has_item remove_item
has_item-remove_item k s [] = ground arith
has_item-remove_item k s (x ∷ xs) =
    ground
      (arith, has_item-remove_item k s xs, eq_bytes_iff x s, eq_bytes_iff x k, eq_bytes_iff s k)
