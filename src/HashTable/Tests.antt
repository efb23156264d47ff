-- ===== src/HashTable/Tests.antt =====
-- Tables of `int`s with a few entries.
use concurrent_banking_syste.Prelude.{◌≡◌, ◌≤◌, refl, none, List, [], ◌∷◌, arith, get_or, replicate}
use concurrent_banking_syste.Prelude.Int.{ℤ, pos}
use concurrent_banking_syste.Run.{Returns, returned}
use concurrent_banking_syste.HashTable.{
  HashTable, insert, overwrite, bucket_index, new, find_in, get_all,
}
use concurrent_banking_syste.HashTable.IntKey.{cast_key}
use concurrent_banking_syste.HashTable.Bucket.{count}
use concurrent_banking_syste.HashTable.Placed.{IsValid, view}
use concurrent_banking_syste.HashTable.Empty.{new-IsValid, view-new}
use concurrent_banking_syste.HashTable.Methods.{insert-Writes}
use concurrent_banking_syste.HashTable.Program.{
  Call, insert_call, find_call, remove_call, contains_call, clear_call, calls, map_calls, Models,
  calls_refine,
}
use concurrent_banking_syste.HashTable.Snapshot.{get_all-view}

abbrev empty : HashTable ℤ ℤ
empty = record { buckets = [] ∷ [] ∷ []; entry_count = 0 }

abbrev one_entry : HashTable ℤ ℤ
one_entry = record { buckets = [] ∷ ((pos 1, pos 10) ∷ []) ∷ []; entry_count = 1 }

abbrev two_entries : HashTable ℤ ℤ
two_entries = record {
  buckets = [] ∷ ((pos 1, pos 10) ∷ (pos 3, pos 30) ∷ []) ∷ [];
  entry_count = 2;
}

empty-IsValid : IsValid ⦃key = cast_key⦄ empty
unfolding new replicate
empty-IsValid = new-IsValid ⦃key = cast_key⦄ 2 (omega arith)

view-empty : (q : ℤ) → view ⦃key = cast_key⦄ empty q ≡ none
unfolding new replicate
view-empty = view-new ⦃key = cast_key⦄ 2

one_entry-IsValid : IsValid ⦃key = cast_key⦄ one_entry
unfolding insert overwrite bucket_index get_or
one_entry-IsValid =
    (returned (insert-Writes ⦃key = cast_key⦄ empty empty-IsValid (pos 1) (pos 10)) refl).valid

two_entries-IsValid : IsValid ⦃key = cast_key⦄ two_entries
unfolding insert overwrite bucket_index get_or
two_entries-IsValid =
    (returned (insert-Writes ⦃key = cast_key⦄ one_entry one_entry-IsValid (pos 3) (pos 30))
      refl).valid

abbrev some_calls : List (Call ℤ ℤ)
some_calls =
    insert_call (pos 1) (pos 10)
    ∷ insert_call (pos 3) (pos 30)
    ∷ find_call (pos 3)
    ∷ remove_call (pos 1)
    ∷ contains_call (pos 1)
    ∷ clear_call
    ∷ []

calls_refine_example : Returns (calls ⦃key = cast_key⦄ some_calls empty) λ r.
    (r.0 ≡ (map_calls ⦃key = cast_key⦄ some_calls (λ _. none)).0)
    × Models ⦃key = cast_key⦄ (map_calls ⦃key = cast_key⦄ some_calls (λ _. none)).1 r.1
calls_refine_example =
    calls_refine ⦃key = cast_key⦄ some_calls (λ _. none) empty (empty-IsValid, view-empty)

get_all-view_example :
    (find_in ⦃key = cast_key⦄ (pos 3) (get_all two_entries)
      ≡ view ⦃key = cast_key⦄ two_entries (pos 3))
    × (count ⦃key = cast_key⦄ (pos 3) (get_all two_entries) ≤ 1)
get_all-view_example = get_all-view ⦃key = cast_key⦄ (pos 3) two_entries two_entries-IsValid
