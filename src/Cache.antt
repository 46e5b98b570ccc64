-- ===== src/Cache.antt =====
-- cache/lru_cache.hpp. The iterator that `index_` keeps for a key points to the entry with that key, of
-- which the list has only one, so the index is the list of its keys and an entry is found by its key.
pub mod Entries
pub mod Laws
use structuredb.Base.{
  ℕ, zero, suc, Bool, true, false, Option, none, some, List, [], ◌∷◌, length, if◌then◌else◌, ltb,
  ◌==◌,
}
use structuredb.Base.Assoc.{KeyEq, member, lookup, assign}

pub record LruCache (K V : Type 0) : Type 0 where
  -- the most recently used in front
  pub entries : List (K × V)
  pub index : List K
  pub capacity : ℕ

module _ {K V : Type 0} where
  abbrev pub new_cache : ℕ → LruCache K V
  new_cache capacity = record { entries = []; index = []; capacity = capacity }

  -- `entries_.back().first`
  unfoldable pub back_key : List (K × V) → Option K
  back_key [] = none
  back_key ((k, v) ∷ []) = some k
  back_key (x ∷ y ∷ es) = back_key (y ∷ es)

  unfoldable pub pop_back : List (K × V) → List (K × V)
  pop_back [] = []
  pop_back (x ∷ []) = []
  pop_back (x ∷ y ∷ es) = x ∷ pop_back (y ∷ es)

  abbrev pub size : LruCache K V → ℕ
  size c = length c.index

  unfoldable pub clear : LruCache K V → LruCache K V
  clear c = record c { entries = []; index = [] }

module _ {K : Type 0} ⦃e : KeyEq K⦄ where
  -- `index_.erase(k)`
  unfoldable pub remove : K → List K → List K
  remove k [] = []
  remove k (j ∷ js) = if e.beq j k then remove k js else j ∷ remove k js

  module _ {V : Type 0} where
    -- `splice` of the entry of a key to the front
    unfoldable pub touch : K → List (K × V) → List (K × V)
    touch k es = elim (lookup k es) [ none ↦ es | some v ↦ assign k v es ]

    unfoldable pub get : K → LruCache K V → Option V × LruCache K V
    unfolding touch
    get k c =
        if member k c.index
        then (lookup k c.entries, record c { entries = touch k c.entries })
        else (none, c)

    unfoldable pub evict : LruCache K V → LruCache K V
    unfolding remove back_key pop_back
    evict c = elim (back_key c.entries) [
      | none ↦ c
      | some k ↦ record c { entries = pop_back c.entries; index = remove k c.index }
    ]

    -- The new entry in front, before anything is evicted.
    abbrev pub emplace : K → V → LruCache K V → LruCache K V
    emplace k v c = record c { entries = (k, v) ∷ c.entries; index = k ∷ c.index }

    unfoldable pub put : K → V → LruCache K V → LruCache K V
    unfolding evict
    put k v c =
        if c.capacity == 0
        then c
        else if member k c.index
        then record c { entries = assign k v c.entries }
        else if ltb c.capacity (length (emplace k v c).index)
        then evict (emplace k v c)
        else emplace k v c

    unfoldable pub contains : K → LruCache K V → Bool
    contains k c = member k c.index
