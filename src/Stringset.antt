-- ===== src/Stringset.antt =====
-- str/stringset.go: sets of strings, `none` being the nil map. The items stand in the order of one
-- iteration, each of them once.
pub mod Members
use elastic_agent_libs.Prelude.{
  ℕ, Bytes, eq_bytes, le_bytes, Bool, true, false, not, ◌&&◌, ◌||◌, List, [], ◌∷◌, Option, none,
  some, length, ◌==◌, if◌then◌else◌,
}

abbrev pub Set : Type 0
Set = Option (List Bytes)

unfoldable pub has_item : Bytes → List Bytes → Bool
has_item s [] = false
has_item s (x ∷ xs) = eq_bytes x s || has_item s xs

-- `set[s] = struct{}{}`.
unfoldable pub insert_item : Bytes → List Bytes → List Bytes
insert_item s [] = s ∷ []
insert_item s (x ∷ xs) = let rest = insert_item s xs in if eq_bytes x s then x ∷ xs else x ∷ rest

-- `MakeSet`.
unfoldable pub insert_all : List Bytes → List Bytes → List Bytes
insert_all [] set = set
insert_all (s ∷ strings) set = insert_all strings (insert_item s set)

unfoldable pub make_set : List Bytes → Set
unfolding insert_all
make_set [] = none
make_set (s ∷ strings) = some (insert_all (s ∷ strings) [])

-- `Set.Add`; the result is none at the nil map, where it panics.
unfoldable pub add_item : Set → Bytes → Option Set
unfolding insert_item
add_item none s = none
add_item (some items) s = some (some (insert_item s items))

-- `Set.Del`.
unfoldable pub remove_item : Bytes → List Bytes → List Bytes
remove_item s [] = []
remove_item s (x ∷ xs) = let rest = remove_item s xs in if eq_bytes x s then rest else x ∷ rest

unfoldable pub del : Set → Bytes → Set
unfolding remove_item
del none s = none
del (some items) s = some (remove_item s items)

-- `Set.Count`.
unfoldable pub count : Set → ℕ
count none = 0
count (some items) = length items

-- `Set.Has`.
unfoldable pub has : Set → Bytes → Bool
unfolding has_item
has none s = false
has (some items) s = has_item s items

-- The loop of `Equals`.
unfoldable pub all_in : List Bytes → Set → Bool
unfolding has
all_in [] another = true
all_in (x ∷ xs) another = has another x && all_in xs another

-- `Set.Equals`.
unfoldable pub equals : Set → Set → Bool
unfolding count all_in
equals none another = 0 == count another
equals (some items) another = length items == count another && all_in items another

-- `ToSlice`, `sort.Strings` being insertion.
unfoldable pub insert_sorted : Bytes → List Bytes → List Bytes
insert_sorted s [] = s ∷ []
insert_sorted s (x ∷ xs) =
    let rest = insert_sorted s xs in if le_bytes s x then s ∷ x ∷ xs else x ∷ rest

unfoldable pub sort_items : List Bytes → List Bytes
unfolding insert_sorted
sort_items [] = []
sort_items (x ∷ xs) = insert_sorted x (sort_items xs)

unfoldable pub to_slice : Set → List Bytes
unfolding sort_items
to_slice none = []
to_slice (some items) = sort_items items
