-- ===== src/Config/Subscribed.antt =====
-- Who is subscribed to what after `subscribe_map_handler`.
use sync_agent.Base.{
  ℕ, zero, suc, ◌+◌, ◌<◌, ◌≡◌, ◌≢◌, ◌∙◌, ◌⊎◌, inl, inr, sym, ap, refl, Bool, false, none, some,
  Option, List, [], ◌∷◌, ◌++◌, arith, length, get_elem?, if◌then◌else◌, ◌||◌, ◌&&◌, Bytes, equal,
  equal_sound, equal_refl, length-append, Bool-cases, get_elem?-append, get_elem?-append_length,
}
use sync_agent.Config.Lists.{SetOps, IsReadySet, MapOps, IsReadyMap, Subscriptions}
use sync_agent.Config.Sets.{add_all, member, contains-add_all}
use sync_agent.Config.Entries.{Entry, paths}
use sync_agent.Config.Subscribe.{IsSound, filled, set_for, update_at, get_elem?-below}

length-update_at :
    {A : Type 0} (xs : List A) (i : ℕ) (f : A → A) → length (update_at xs i f) ≡ length xs
unfolding update_at
length-update_at [] i f = refl
length-update_at (x ∷ xs) zero f = refl
length-update_at (x ∷ xs) (suc i) f = ap suc (length-update_at xs i f)

get_elem?-update_at_self :
    {A : Type 0} (xs : List A) (i : ℕ) (f : A → A) (x : A)
    → get_elem? xs i ≡ some x
    → get_elem? (update_at xs i f) i ≡ some (f x)
unfolding update_at
get_elem?-update_at_self [] i f x e = cc
get_elem?-update_at_self (y ∷ xs) zero f x e = cc
get_elem?-update_at_self (y ∷ xs) (suc i) f x e = get_elem?-update_at_self xs i f x e

get_elem?-update_at_ne :
    {A : Type 0} (xs : List A) (i j : ℕ) (f : A → A)
    → i ≢ j
    → get_elem? (update_at xs i f) j ≡ get_elem? xs j
unfolding update_at
get_elem?-update_at_ne [] i j f n = refl
get_elem?-update_at_ne (x ∷ xs) zero zero f n = absurd (n refl)
get_elem?-update_at_ne (x ∷ xs) zero (suc j) f n = refl
get_elem?-update_at_ne (x ∷ xs) (suc i) zero f n = refl
get_elem?-update_at_ne (x ∷ xs) (suc i) (suc j) f n =
    get_elem?-update_at_ne xs i j f (λ e. n (ap suc e))

equal-ne : (s t : Bytes) → equal s t ≡ false → s ≢ t
equal-ne s t n e = cc (equal_refl t, ap (λ x. equal x t) e)

module _ {M S : Type 0} (maps : MapOps M) (ops : SetOps S) where
  abbrev pub holds : Bytes → Option S → Bool
  holds path none = false
  holds path (some s) = ops.set_contains path s

  -- `set_contains` on the set at a pointer.
  abbrev pub listens : List S → Bytes → Option ℕ → Bool
  listens sets path none = false
  listens sets path (some p) = holds path (get_elem? sets p)

  -- The path is in the set to which the map leads from the host.
  abbrev pub subscribed : Subscriptions M S → Bytes → Bytes → Bool
  subscribed subs host path = listens subs.sets path (maps.hashmap_find host subs.map)

  listens-other :
      (sets : List S) (p q : ℕ) (f : S → S) (path : Bytes)
      → p ≢ q
      → listens (update_at sets p f) path (some q) ≡ listens sets path (some q)
  listens-other sets p q f path n = ap (holds path) (get_elem?-update_at_ne sets p q f n)

  listens-append :
      (sets : List S) (q : ℕ) (s : S) (path : Bytes)
      → q < length sets
      → listens (sets ++ s ∷ []) path (some q) ≡ listens sets path (some q)
  listens-append sets q s path h = ap (holds path) (get_elem?-append sets (s ∷ []) q h)

  listens-at :
      (sets : List S) (p : ℕ) (s : S) (path : Bytes)
      → get_elem? sets p ≡ some s
      → listens sets path (some p) ≡ ops.set_contains path s
  listens-at sets p s path e = ap (holds path) e

module _ {M S : Type 0} (maps : MapOps M) (ops : SetOps S) (map_ok : IsReadyMap maps)
    (set_ok : IsReadySet ops) where
  listens_self :
      (sets : List S) (p : ℕ) (s : S) (ps : List Bytes) (path : Bytes)
      → get_elem? sets p ≡ some s
      → listens maps ops (update_at sets p (add_all ops ps)) path (some p)
        ≡ (member path ps || ops.set_contains path s)
  listens_self sets p s ps path e =
      listens-at maps ops (update_at sets p (add_all ops ps)) p (add_all ops ps s) path
        (get_elem?-update_at_self sets p (add_all ops ps) s e)
      ∙ contains-add_all ops set_ok path ps s

  -- A new host.
  module _ (e : Entry) (subs : Subscriptions M S) (v : IsSound maps ops subs)
      (absent : maps.hashmap_find e.host subs.map ≡ none) where
    abbrev pub grown : Subscriptions M S
    grown = filled maps ops e (set_for maps ops subs none)

    find-grown :
        (j : Bytes)
        → maps.hashmap_find j grown.map
          ≡ (if equal j e.host then some (length subs.sets) else maps.hashmap_find j subs.map)
    find-grown j = map_ok.hash_map.find-add_new j e.host (length subs.sets) subs.map absent

    -- The other hosts have the sets they had.
    listens-grown :
        (path : Bytes) (o : Option ℕ)
        → ((q : ℕ) → o ≡ some q → q < length subs.sets)
        → listens maps ops grown.sets path o ≡ listens maps ops subs.sets path o
    listens-grown path none h = refl
    listens-grown path (some q) h =
        let low = h q refl in
        listens-other maps ops (subs.sets ++ ops.set_init ∷ []) (length subs.sets) q
          (add_all ops (paths e)) path (λ same. absurd (omega arith))
        ∙ listens-append maps ops subs.sets q ops.set_init path low

    pub grown-subscribed :
        (host path : Bytes)
        → subscribed maps ops grown host path
          ≡ (equal host e.host && member path (paths e) || subscribed maps ops subs host path)
    grown-subscribed host path = elim (Bool-cases (equal host e.host)) [
      | inl same ↦
          let same_host : host ≡ e.host = equal_sound host e.host same in
          let none_there : maps.hashmap_find host subs.map ≡ none =
            ap (λ h. maps.hashmap_find h subs.map) same_host ∙ absent in
          rw (find-grown host, same, none_there)
            (listens_self (subs.sets ++ ops.set_init ∷ []) (length subs.sets) ops.set_init (paths e)
                path (get_elem?-append_length subs.sets [] ops.set_init)
              ∙ ap (λ b. member path (paths e) || b) (set_ok.hash_set.contains-init path))
      | inr other ↦
          rw (find-grown host, other)
            (listens-grown path (maps.hashmap_find host subs.map) (λ q f. v.within host q f))
    ]

    length-grown : length grown.sets ≡ length subs.sets + 1
    length-grown =
        length-update_at (subs.sets ++ ops.set_init ∷ []) (length subs.sets) (add_all ops (paths e))
        ∙ length-append subs.sets (ops.set_init ∷ [])

    found-grown :
        (k : Bytes) (q : ℕ)
        → maps.hashmap_find k grown.map ≡ some q
        → ((k ≡ e.host) × (q ≡ length subs.sets)) ⊎ (maps.hashmap_find k subs.map ≡ some q)
    found-grown k q f = elim (Bool-cases (equal k e.host)) [
      | inl same ↦
          let g : some (length subs.sets) ≡ some q = (rw (find-grown k, same) at f) in
          inl (equal_sound k e.host same, cc)
      | inr other ↦ inr (rw (find-grown k, other) at f)
    ]

    pub grown-IsSound : IsSound maps ops grown
    grown-IsSound = record {
      within = λ k q f. rw (length-grown) (elim (found-grown k q f) [
        | inl new ↦ omega arith
        | inr old ↦ let low = v.within k q old in omega arith
      ]);
      apart = λ j k q f g. elim (found-grown j q f) [
        | inl new ↦ elim (found-grown k q g) [
          | inl new' ↦ new.0 ∙ sym new'.0
          | inr old ↦ let low = v.within k q old in absurd (omega arith)
        ]
        | inr old ↦ elim (found-grown k q g) [
          | inl new ↦ let low = v.within j q old in absurd (omega arith)
          | inr old' ↦ v.apart j k q old old'
        ]
      ];
    }

  -- A host that is in the map already.
  module _ (e : Entry) (subs : Subscriptions M S) (v : IsSound maps ops subs) (p : ℕ)
      (present : maps.hashmap_find e.host subs.map ≡ some p) where
    abbrev pub kept : Subscriptions M S
    kept = filled maps ops e (set_for maps ops subs (some p))

    find-kept : (j : Bytes) → maps.hashmap_find j kept.map ≡ maps.hashmap_find j subs.map
    find-kept j = map_ok.hash_map.find-add_old j e.host p p subs.map present

    listens-kept :
        (path : Bytes) (o : Option ℕ)
        → ((q : ℕ) → o ≡ some q → p ≢ q)
        → listens maps ops kept.sets path o ≡ listens maps ops subs.sets path o
    listens-kept path none h = refl
    listens-kept path (some q) h =
        listens-other maps ops subs.sets p q (add_all ops (paths e)) path (h q refl)

    pub kept-subscribed :
        (host path : Bytes)
        → subscribed maps ops kept host path
          ≡ (equal host e.host && member path (paths e) || subscribed maps ops subs host path)
    kept-subscribed host path = elim (Bool-cases (equal host e.host)) [
      | inl same ↦
          let same_host : host ≡ e.host = equal_sound host e.host same in
          let there : maps.hashmap_find host subs.map ≡ some p =
            ap (λ h. maps.hashmap_find h subs.map) same_host ∙ present in
          let (s, g) = get_elem?-below subs.sets p (v.within e.host p present) in
          rw (find-kept host, same, there)
            (listens_self subs.sets p s (paths e) path g
              ∙ ap (λ b. member path (paths e) || b)
                  (sym (listens-at maps ops subs.sets p s path g)))
      | inr other ↦
          rw (find-kept host, other)
            (listens-kept path (maps.hashmap_find host subs.map) (λ q f same.
              equal-ne host e.host other (v.apart host e.host p (f ∙ ap some (sym same)) present)))
    ]

    pub kept-IsSound : IsSound maps ops kept
    kept-IsSound = record {
      within = λ k q f.
          rw (length-update_at subs.sets p (add_all ops (paths e)))
            (v.within k q (sym (find-kept k) ∙ f));
      apart = λ j k q f g. v.apart j k q (sym (find-kept j) ∙ f) (sym (find-kept k) ∙ g);
    }
