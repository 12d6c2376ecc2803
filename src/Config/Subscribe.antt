-- ===== src/Config/Subscribe.antt =====
-- `subscribe_map_handler` on the text of a list of entries: it takes them in order.
use sync_agent.Base.{
  true, ℕ, zero, suc, ◌+◌, ◌-◌, ◌<◌, ◌≡◌, ◌∙◌, sym, ap, refl, false, none, some, Option, List, [],
  ◌∷◌, ◌++◌, arith, length, ltb, set, get_elem?, Bytes, length-append, take-length-append,
  drop-length_add, append_assoc, get_elem?-append_length,
}
use sync_agent.Text.Scan.{Without}
use sync_agent.Config.Lists.{
  IsReadyMap, room_for, SetOps, MapOps, Subscriptions, path_set, fill_set, subscribe_entry,
}
use sync_agent.Config.Sets.{index_of-append, add_all}
use sync_agent.Config.Entries.{Entry, paths, path_text, entry_text, IsPlain, NoHead, add_paths_lem}

-- A change of the element at an index.
unfoldable pub update_at : {A : Type 0} → List A → ℕ → (A → A) → List A
update_at [] i f = []
update_at (x ∷ xs) zero f = f x ∷ xs
update_at (x ∷ xs) (suc i) f = x ∷ update_at xs i f

set-eq-update_at :
    {A : Type 0} (xs : List A) (i : ℕ) (f : A → A) (x : A)
    → get_elem? xs i ≡ some x
    → set xs i (f x) ≡ update_at xs i f
unfolding update_at
set-eq-update_at [] i f x e = refl
set-eq-update_at (y ∷ xs) zero f x e = cc
set-eq-update_at (y ∷ xs) (suc i) f x e = ap (◌∷◌ y) (set-eq-update_at xs i f x e)

pub get_elem?-below :
    {A : Type 0} (xs : List A) (i : ℕ) → i < length xs → (x : A) × (get_elem? xs i ≡ some x)
get_elem?-below [] i h = absurd (omega arith)
get_elem?-below (x ∷ xs) zero h = (x, refl)
get_elem?-below (x ∷ xs) (suc i) h = get_elem?-below xs i (omega arith)

module _ {M S : Type 0} (maps : MapOps M) (ops : SetOps S) where
  -- The paths go to the set at the pointer, and the host is entered with the pointer.
  abbrev pub filled : Entry → ℕ × Subscriptions M S → Subscriptions M S
  filled e (p, subs) = record {
    map = maps.hashmap_add e.host p subs.map;
    sets = update_at subs.sets p (add_all ops (paths e));
  }

  unfoldable pub put_entry : Entry → Subscriptions M S → Subscriptions M S
  put_entry e subs = filled e (path_set maps ops e.host subs)

  unfoldable pub put_all : List Entry → Subscriptions M S → Subscriptions M S
  put_all [] subs = subs
  put_all (e ∷ es) subs = put_all es (put_entry e subs)

  room_for_lem :
      (host : Bytes) (subs : Subscriptions M S)
      → IsReadyMap maps
      → room_for maps ops host subs ≡ true
  unfolding room_for
  room_for_lem host subs ready =
      rw (ready.host_mallocs (length host), ready.spares (length host))
        (by_found (maps.hashmap_find host subs.map))
    where
      by_found : (o : Option ℕ) → elim o [ none ↦ maps.set_malloc | some p ↦ true ] ≡ true
      by_found none = ready.set_mallocs
      by_found (some p) = refl

  fill_set_lem :
      (ready : IsReadyMap maps) (e : Entry) (tail : Bytes) (p : ℕ) (subs : Subscriptions M S)
      (s : S)
      → IsPlain e
      → NoHead b'|' tail
      → get_elem? subs.sets p ≡ some s
      → fill_set maps ops e.host (path_text e ++ tail) (length (path_text e)) (p, subs)
        ≡ some (filled e (p, subs))
  unfolding fill_set
  fill_set_lem ready e tail p subs s h k g = rw (
    g,
    add_paths_lem ops maps.spare ready.spares (suc (length (path_text e ++ tail))) e.first e.others
        tail s (omega (arith, length-append (path_text e) tail)) h.path_bar k,
    set-eq-update_at subs.sets p (add_all ops (paths e)) s g,
  )

  entry_at :
      (ready : IsReadyMap maps) (host text : Bytes) (n : ℕ) (subs : Subscriptions M S)
      → Without b':' host
      → subscribe_entry maps ops (host ++ b':' ∷ text) (length host + suc n) subs
        ≡ fill_set maps ops host text n (path_set maps ops host subs)
  entry_at ready host text n subs h =
      let after : ltb (length host + suc n) (length host) ≡ false = ground arith in
      let left : length host + suc n - (length host + 1) ≡ n = omega arith in
      unfold subscribe_entry in
      rw (
        index_of-append b':' host text h,
        subscribe_entry,
        after,
        take-length-append host (b':' ∷ text),
        drop-length_add host (b':' ∷ text) 1,
        left,
        room_for_lem host subs ready,
      )

  -- Every pointer of the map points to a set, and two hosts have two sets.
  pub record IsSound (subs : Subscriptions M S) : Type 0 where
    pub within : (k : Bytes) (p : ℕ) → maps.hashmap_find k subs.map ≡ some p → p < length subs.sets
    pub apart :
        (j k : Bytes) (p : ℕ)
        → maps.hashmap_find j subs.map ≡ some p
        → maps.hashmap_find k subs.map ≡ some p
        → j ≡ k

  -- `path_set`, by what `hashmap_find` has found.
  abbrev pub set_for : Subscriptions M S → Option ℕ → ℕ × Subscriptions M S
  set_for subs none = (length subs.sets, record subs { sets = subs.sets ++ ops.set_init ∷ [] })
  set_for subs (some p) = (p, subs)

  pub path_set-find :
      (host : Bytes) (subs : Subscriptions M S) (o : Option ℕ)
      → maps.hashmap_find host subs.map ≡ o
      → path_set maps ops host subs ≡ set_for subs o
  unfolding path_set
  path_set-find host subs none e = rw (e, path_set)
  path_set-find host subs (some p) e = rw (e, path_set)

  set_for-holds :
      (host : Bytes) (subs : Subscriptions M S) (o : Option ℕ)
      → maps.hashmap_find host subs.map ≡ o
      → IsSound subs
      → let found = set_for subs o in (s : S) × (get_elem? found.1.sets found.0 ≡ some s)
  set_for-holds host subs none e v =
      (ops.set_init, get_elem?-append_length subs.sets [] ops.set_init)
  set_for-holds host subs (some p) e v = get_elem?-below subs.sets p (v.within host p e)

  entry_text-split :
      (e : Entry) (tail : Bytes) → entry_text e ++ tail ≡ e.host ++ b':' ∷ (path_text e ++ tail)
  entry_text-split e tail = append_assoc e.host (b':' ∷ path_text e) tail

  pub subscribe_entry_lem :
      (ready : IsReadyMap maps) (e : Entry) (tail : Bytes) (subs : Subscriptions M S)
      → IsPlain e
      → NoHead b'|' tail
      → IsSound subs
      → subscribe_entry maps ops (entry_text e ++ tail) (length (entry_text e)) subs
        ≡ some (put_entry e subs)
  unfolding put_entry
  subscribe_entry_lem ready e tail subs h k v =
      let o = maps.hashmap_find e.host subs.map in
      let found = set_for subs o in
      let same : path_set maps ops e.host subs ≡ found = path_set-find e.host subs o refl in
      let (s, g) = set_for-holds e.host subs o refl v in
      ap (λ t. subscribe_entry maps ops t (length (entry_text e)) subs) (entry_text-split e tail)
      ∙ ap (λ n. subscribe_entry maps ops (e.host ++ b':' ∷ (path_text e ++ tail)) n subs)
          (length-append e.host (b':' ∷ path_text e))
      ∙ entry_at ready e.host (path_text e ++ tail) (length (path_text e)) subs h.host_colon
      ∙ ap (fill_set maps ops e.host (path_text e ++ tail) (length (path_text e))) same
      ∙ fill_set_lem ready e tail found.0 found.1 s h k g
      ∙ ap (λ f. some (filled e f)) (sym same)
