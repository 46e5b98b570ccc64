-- ===== src/Tests/Caches.antt =====
-- A cache of two entries that is full.
use structuredb.Base.{ℕ, none, some, ◌≡◌, refl, [], ◌∷◌, arith}
use structuredb.Base.Assoc.{nat_key, member, lookup, erase}
use structuredb.Cache.{LruCache, get, put}
use structuredb.Cache.Laws.{Inv, recent, put_lem, get_lem}

abbrev full : LruCache ℕ ℕ
full = record { entries = (1, 10) ∷ (2, 20) ∷ []; index = 1 ∷ 2 ∷ []; capacity = 2 }

full-Inv : Inv full
unfolding member lookup
full-Inv = record {
  agree = λ k. ground arith;
  unique = (refl, (refl, tt));
  distinct = (refl, (refl, tt));
  sized = refl;
  bound = omega arith;
}

put_lem_example : ((put 3 30 full).entries ≡ recent 3 30 full) × Inv (put 3 30 full)
put_lem_example = put_lem 3 30 full full-Inv (omega arith)

get_lem_example :
    ((v : ℕ)
      → lookup 2 full.entries ≡ some v
      → ((get 2 full).0 ≡ some v) × ((get 2 full).1.entries ≡ (2, v) ∷ erase 2 full.entries))
    × (lookup 2 full.entries ≡ none → get 2 full ≡ (none, full))
    × Inv (get 2 full).1
get_lem_example = get_lem 2 full full-Inv
