-- ===== src/Config/Stores.antt =====
-- A set as a list and a map as a function, to run the configuration with.
use sync_agent.Base.{
  true, ℕ, ◌≡◌, ◌∙◌, sym, ap, refl, Option, none, some, List, [], ◌∷◌, Bytes, equal, equal_sound,
  if◌then◌else◌, Bool-cases, inl, inr,
}
use sync_agent.Config.Lists.{SetOps, IsReadySet, MapOps, IsReadyMap}
use sync_agent.Config.Sets.{member}

abbrev pub list_set : SetOps (List Bytes)
list_set = record {
  set_malloc = true;
  spare = λ n. true;
  set_init = [];
  set_add = λ x s. x ∷ s;
  set_contains = member;
}

pub list_set-IsReadySet : IsReadySet list_set
unfolding member
list_set-IsReadySet = record {
  hash_set = record { contains-init = λ x. refl; contains-add = λ x y s. refl };
  set_mallocs = refl;
  spares = λ n. refl;
}

abbrev pub Table : Type 0
Table = Bytes → Option ℕ

abbrev pub first_of : Option ℕ → ℕ → Option ℕ
first_of none v = some v
first_of (some w) v = some w

abbrev pub table_map : MapOps Table
table_map = record {
  host_malloc = λ n. true;
  set_malloc = true;
  spare = λ n. true;
  hashmap_new = λ k. none;
  hashmap_find = λ k t. t k;
  hashmap_add = λ k v t j. if equal j k then first_of (t k) v else t j;
}

kept :
    (j k : Bytes) (v w : ℕ) (t : Table)
    → t k ≡ some w
    → (if equal j k then first_of (t k) v else t j) ≡ t j
kept j k v w t e = elim (Bool-cases (equal j k)) [
  | inl same ↦ rw (same, e) (sym e ∙ sym (ap t (equal_sound j k same)))
  | inr other ↦ rw other
]

pub table_map-IsReadyMap : IsReadyMap table_map
table_map-IsReadyMap = record {
  hash_map = record { find-new = λ k. refl; find-add_new = λ j k v t e. rw e; find-add_old = kept };
  host_mallocs = λ n. refl;
  set_mallocs = refl;
  spares = λ n. refl;
}
