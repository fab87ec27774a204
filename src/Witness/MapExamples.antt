-- ===== src/Witness/MapExamples.antt =====
-- A table of four slots that holds one key.
use kalshi_cpp.Prelude.{
  false, ℕ, ◌<◌, ◌≡◌, refl, subst, Bool, true, none, some, [], ◌∷◌, arith, ◌==◌, if◌then◌else◌,
}
use kalshi_cpp.Core.FlatHashMap.{
  FlatHashMap, free_key, find, insert, erase, init_map, hash, home, next, probe_distance,
}
use kalshi_cpp.Core.FlatHashMap.Find.{Found, find_lem}
use kalshi_cpp.Core.FlatHashMap.Insert.Calls.{Sound, insert_lem}
use kalshi_cpp.Core.FlatHashMap.Lookup.{lookup, lookup-erase, init_map-Sound}

abbrev unread : ℕ
unread = 0

small : 2 < 64
small = omega arith

abbrev empty : FlatHashMap ℕ
empty = record {
  slots =
      record { key = free_key; value = 0 }
      ∷ record { key = free_key; value = 0 }
      ∷ record { key = free_key; value = 0 }
      ∷ record { key = free_key; value = 0 }
      ∷ [];
  count = 0;
}

empty-Sound : Sound 2 small empty
unfolding init_map
empty-Sound = (init_map-Sound 2 small 0).0

-- The keys 6, 3 and 7 have their home at the slot 0.
abbrev one : FlatHashMap ℕ
one = record empty {
  slots =
      record { key = 6; value = 1 }
      ∷ record { key = free_key; value = 0 }
      ∷ record { key = free_key; value = 0 }
      ∷ record { key = free_key; value = 0 }
      ∷ [];
  count = 1;
}

insert_run : (insert 4 6 1 empty).1 ≡ one
unfolding insert home hash next probe_distance
insert_run = refl

one-Sound : Sound 2 small one
one-Sound =
    subst (Sound 2 small) insert_run
      (insert_lem 2 small empty 6 1 empty-Sound (omega arith) (omega arith)).sound

lookup-erase_example :
    (found : Bool) × (m' : FlatHashMap ℕ) × (erase 4 6 one ≡ some (found, m'))
    × Sound 2 small m'
    × (lookup 4 7 m' ≡ (if 7 == 6 then none else lookup 4 7 one))
lookup-erase_example =
    lookup-erase 2 small one 6 7 one-Sound (omega arith) (omega arith) (omega arith)

find_lem_example : Found 2 (omega arith) one.slots 6 (find 4 6 one)
find_lem_example = find_lem 2 (omega arith) 6 one one-Sound.valid (omega arith)

hash_run : hash 1 ≡ 6238072747940578789
unfolding hash
hash_run = refl

-- Two keys with the home 0: the second one is behind the first, and moves up when that is erased.
shift_run :
    (erase 4 6 (insert 4 7 2 one).1)
    ≡ some (
      true,
      record one {
        slots =
            record { key = 7; value = 2 }
            ∷ record { key = free_key; value = 2 }
            ∷ record { key = free_key; value = 0 }
            ∷ record { key = free_key; value = 0 }
            ∷ [];
      },
    )
unfolding insert erase home hash next probe_distance
shift_run = refl

-- A full table: the key 3 takes over a slot, and the key 1 is lost.
abbrev full_table : FlatHashMap ℕ
full_table = record {
  slots =
      record { key = 6; value = 1 }
      ∷ record { key = 7; value = 2 }
      ∷ record { key = 1; value = 3 }
      ∷ record { key = 2; value = 4 }
      ∷ [];
  count = 4;
}

full_insert_run :
    ((insert 4 3 9 full_table).0 ≡ false)
    × (find 4 1 full_table ≡ some 2)
    × (find 4 1 (insert 4 3 9 full_table).1 ≡ none)
    × (find 4 3 (insert 4 3 9 full_table).1 ≡ some 2)
unfolding insert find home hash next probe_distance
full_insert_run = (refl, refl, refl, refl)
