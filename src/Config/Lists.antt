-- ===== src/Config/Lists.antt =====
-- `watch_set_handler` and `subscribe_map_handler` of src/agent/sync_config.c, which take the lists of the
-- configuration apart. The hash set and the hash map are interfaces.
use sync_agent.Base.{
  ℕ, zero, suc, ◌+◌, ◌-◌, Bool, true, false, Option, none, some, List, [], ◌∷◌, ◌++◌, ltb, ◌==◌,
  if◌then◌else◌, length, take, drop, set, get_elem?, Bytes, equal, ◌≡◌, ◌||◌, ◌&&◌,
}
use sync_agent.Property.{◌>>=◌}

-- The calls of the hash set, on the set that a pointer names, and what `watch_set_handler` finds of memory:
-- whether its `malloc` of the set succeeds, and whether the byte behind an array of some length can be
-- written.
pub record SetOps (S : Type 0) : Type 0 where
  pub set_malloc : Bool
  pub spare : ℕ → Bool
  pub set_init : S
  pub set_add : Bytes → S → S
  pub set_contains : Bytes → S → Bool

pub record IsHashSet {S : Type 0} (ops : SetOps S) : Type 0 where
  pub contains-init : (x : Bytes) → ops.set_contains x ops.set_init ≡ false
  pub contains-add :
      (x y : Bytes) (s : S)
      → ops.set_contains x (ops.set_add y s) ≡ (equal x y || ops.set_contains x s)

-- The hash set, and memory for it, with a byte that can be written behind every array.
pub record IsReadySet {S : Type 0} (ops : SetOps S) : Type 0 where
  pub hash_set : IsHashSet ops
  pub set_mallocs : ops.set_malloc ≡ true
  pub spares : (n : ℕ) → ops.spare n ≡ true

-- The calls of the hash map, whose values are pointers, and what `subscribe_map_handler` finds of memory:
-- whether its `malloc` of a host of some length succeeds, whether that of a set does, and whether the byte
-- behind an array of some length can be written.
pub record MapOps (M : Type 0) : Type 0 where
  pub host_malloc : ℕ → Bool
  pub set_malloc : Bool
  pub spare : ℕ → Bool
  pub hashmap_new : M
  pub hashmap_find : Bytes → M → Option ℕ
  -- Changes nothing if the key is in the map.
  pub hashmap_add : Bytes → ℕ → M → M

-- `strstr` for a text of one byte: the offset of its first place.
unfoldable pub index_of : ℕ → Bytes → Option ℕ
index_of c [] = none
index_of c (x ∷ xs) =
    let later = index_of c xs in
    if x == c then some 0 else elim later [ none ↦ none | some i ↦ some (suc i) ]

module _ {S : Type 0} (ops : SetOps S) where
  -- The loop of `watch_set_handler` from `last` on. Each part is copied to an array of its length, and a NUL
  -- is stored behind that array: a fault, unless that byte can be written.
  unfoldable pub add_elements : ℕ → Bytes → S → Option S
  unfolding index_of
  add_elements zero last_text s = none
  add_elements (suc fuel) last_text s = elim (index_of b',' last_text) [
    | none ↦ if ops.spare (length last_text) then some (ops.set_add last_text s) else none
    | some len ↦
        let more =
          add_elements fuel (drop (len + 1) last_text) (ops.set_add (take len last_text) s) in
        if ops.spare len then more else none
  ]

  -- `watch_set_handler`; its `malloc` is not tested.
  unfoldable pub watch_set_handler : Bytes → Option S
  unfolding add_elements
  watch_set_handler watch_path =
      let s = add_elements (suc (length watch_path)) watch_path ops.set_init in
      if ops.set_malloc then s else none

  -- The loop over the paths of a host, from `path_begin` on; the entry ends `limit` bytes later. Each path
  -- is copied to an array of its length, and a NUL is stored behind that array: a fault, unless `spare`
  -- says that this byte can be written.
  unfoldable pub add_paths : (ℕ → Bool) → ℕ → Bytes → ℕ → S → Option S
  unfolding index_of
  add_paths spare zero text limit s = none
  add_paths spare (suc fuel) text limit s =
      let last = if spare limit then some (ops.set_add (take limit text) s) else none in
      elim (index_of b'|' text) [
        | none ↦ last
        | some len ↦
            let more =
              add_paths spare fuel (drop (len + 1) text) (limit - (len + 1))
                (ops.set_add (take len text) s) in
            if ltb len limit
            then if spare len then more else none
            else if ltb limit len
            then last
            else some s
      ]

-- The map of `subscribe_map_handler`, with the sets that its values point to: the pointer is an index.
pub record Subscriptions (M S : Type 0) : Type 0 where
  pub map : M
  pub sets : List S

-- What the documentation of the hash map says of its calls.
pub record IsHashMap {M : Type 0} (maps : MapOps M) : Type 0 where
  pub find-new : (k : Bytes) → maps.hashmap_find k maps.hashmap_new ≡ none
  pub find-add_new :
      (j k : Bytes) (v : ℕ) (m : M)
      → maps.hashmap_find k m ≡ none
      → maps.hashmap_find j (maps.hashmap_add k v m)
        ≡ (if equal j k then some v else maps.hashmap_find j m)
  pub find-add_old :
      (j k : Bytes) (v w : ℕ) (m : M)
      → maps.hashmap_find k m ≡ some w
      → maps.hashmap_find j (maps.hashmap_add k v m) ≡ maps.hashmap_find j m

-- The hash map, and memory for every host and set, with a byte that can be written behind every array.
pub record IsReadyMap {M : Type 0} (maps : MapOps M) : Type 0 where
  pub hash_map : IsHashMap maps
  pub host_mallocs : (n : ℕ) → maps.host_malloc n ≡ true
  pub set_mallocs : maps.set_malloc ≡ true
  pub spares : (n : ℕ) → maps.spare n ≡ true

module _ {M S : Type 0} (maps : MapOps M) (ops : SetOps S) where
  -- `hashmap_find`, or a new set.
  unfoldable pub path_set : Bytes → Subscriptions M S → ℕ × Subscriptions M S
  path_set host subs = elim (maps.hashmap_find host subs.map) [
    | none ↦ (length subs.sets, record subs { sets = subs.sets ++ ops.set_init ∷ [] })
    | some p ↦ (p, subs)
  ]

  -- Neither call of `malloc` of an entry is tested. The host is copied to an array of its length, and a NUL
  -- is stored behind that array; a host that is not in the map gets a new set.
  unfoldable pub room_for : Bytes → Subscriptions M S → Bool
  room_for host subs =
      maps.host_malloc (length host)
      && maps.spare (length host)
      && elim (maps.hashmap_find host subs.map) [ none ↦ maps.set_malloc | some p ↦ true ]

  -- The paths of one entry go to the set of its host.
  unfoldable pub fill_set : Bytes → Bytes → ℕ → ℕ × Subscriptions M S → Option (Subscriptions M S)
  unfolding add_paths
  fill_set host text limit (p, subs) = do
    s ← get_elem? subs.sets p
    s' ← add_paths ops maps.spare (suc (length text)) text limit s
    some (record { map = maps.hashmap_add host p subs.map; sets = set subs.sets p s' })

  -- The body of the loop: `end_pos` is the offset of the end of the entry. An entry with no colon makes
  -- the length of the host or of the path negative: a fault, as is an entry that there is no room for.
  unfoldable pub subscribe_entry : Bytes → ℕ → Subscriptions M S → Option (Subscriptions M S)
  unfolding path_set fill_set room_for
  subscribe_entry last_text end_pos subs = elim (index_of b':' last_text) [
    | none ↦ none
    | some colon ↦
        if ltb end_pos colon
        then none
        else if room_for (take colon last_text) subs
        then fill_set (take colon last_text) (drop (colon + 1) last_text) (end_pos - (colon + 1))
            (path_set (take colon last_text) subs)
        else none
  ]

  -- The loop of `subscribe_map_handler` from `last` on.
  unfoldable pub subscribe_loop : ℕ → Bytes → Subscriptions M S → Option (Subscriptions M S)
  unfolding subscribe_entry index_of
  subscribe_loop zero last_text subs = none
  subscribe_loop (suc fuel) [] subs = some subs
  subscribe_loop (suc fuel) (x ∷ xs) subs = elim (index_of b',' (x ∷ xs)) [
    | none ↦ subscribe_entry (x ∷ xs) (length (x ∷ xs)) subs
    | some end_pos ↦
        subscribe_entry (x ∷ xs) end_pos subs >>= subscribe_loop fuel (drop (end_pos + 1) (x ∷ xs))
  ]

  -- `subscribe_map_handler`
  unfoldable pub subscribe_map_handler : Bytes → Option (Subscriptions M S)
  unfolding subscribe_loop
  subscribe_map_handler subscribe_path =
      subscribe_loop (suc (length subscribe_path)) subscribe_path
        (record { map = maps.hashmap_new; sets = [] })
