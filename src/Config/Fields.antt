-- ===== src/Config/Fields.antt =====
-- Each field of the configuration is what the last item with its key says.
use sync_agent.Base.{
  ◌≡◌, ◌≢◌, ◌∙◌, sym, ap, refl, Bool, true, false, none, some, Option, List, [], ◌∷◌, Bytes, codes,
  equal, equal_nocase, equal_sound, to_lower, map, ◌&&◌, if◌then◌else◌, Bool-cases, inl, inr,
}
use sync_agent.Property.{Line, skipped, item}
use sync_agent.Config.{Config, Host, sync_config_item_handler}
use sync_agent.Config.Load.{configured}

pub and_true : (a b : Bool) → (a && b) ≡ true → (a ≡ true) × (b ≡ true)
and_true true true e = (refl, refl)
and_true true false e = cc
and_true false b e = cc

pub no_config : {A : Type 0} {x : A} → none ≢ some x
no_config e = cc

pub null_config : {A : Type 0} {x : A} → some none ≢ some (some x)
null_config e = cc

pub same_config : {A : Type 0} {x y : A} → some (some x) ≡ some (some y) → x ≡ y
same_config e = cc

-- Keys that `strcasecmp` holds for equal are equal to the same keys.
pub equal_nocase_same :
    (k a b : Bytes) → equal_nocase k a ≡ true → equal_nocase k b ≡ equal_nocase a b
unfolding equal_nocase
equal_nocase_same k a b e =
    ap (λ x. equal x (map to_lower b)) (equal_sound (map to_lower k) (map to_lower a) e)

-- The value of the last item with a key, of those whose values count.
unfoldable pub last_value : Bytes → (Bytes → Bool) → List Line → Option Bytes
last_value key counts [] = none
last_value key counts (skipped ∷ ls) = last_value key counts ls
last_value key counts (item k v ∷ ls) = elim (last_value key counts ls) [
  | some w ↦ some w
  | none ↦ if equal_nocase k key && counts v then some v else none
]

-- What a field is, where the last value with its key is given, from what it was.
unfoldable pub by_value : {A : Type 0} → (Bytes → A) → Option Bytes → A → A
by_value value_of none before = before
by_value value_of (some v) before = value_of v

abbrev pub any_value : Bytes → Bool
any_value v = true

abbrev pub not_empty : Bytes → Bool
not_empty [] = false
not_empty (x ∷ xs) = true

module _ {M S : Type 0} (host : Host M S) where
  pub handler_same :
      (k a v : Bytes) (config : Config M S)
      → equal_nocase k a ≡ true
      → sync_config_item_handler host k v config ≡ sync_config_item_handler host a v config
  unfolding sync_config_item_handler
  handler_same k a v config e = rw (
    equal_nocase_same k a (codes "daemon") e,
    equal_nocase_same k a (codes "log_level") e,
    equal_nocase_same k a (codes "log_dst") e,
    equal_nocase_same k a (codes "log_file") e,
    equal_nocase_same k a (codes "mode") e,
    equal_nocase_same k a (codes "port") e,
    equal_nocase_same k a (codes "watch_path") e,
    equal_nocase_same k a (codes "subscribe_path") e,
    equal_nocase_same k a (codes "server_list") e,
  )

  -- An accepted item with the key and a value that counts sets the field to the meaning of the value;
  -- any other leaves it.
  pub record IsField {A : Type 0} (key : Bytes) (counts : Bytes → Bool) (get : Config M S → A)
      (value_of : Bytes → A) : Type 0 where
    pub changed :
        (v : Bytes) (config config' : Config M S)
        → sync_config_item_handler host key v config ≡ some (true, config')
        → counts v ≡ true
        → get config' ≡ value_of v
    pub kept :
        (k v : Bytes) (config config' : Config M S)
        → sync_config_item_handler host k v config ≡ some (true, config')
        → (equal_nocase k key && counts v) ≡ false
        → get config' ≡ get config

  module _ {A : Type 0} {key : Bytes} {counts : Bytes → Bool} {get : Config M S → A}
      {value_of : Bytes → A} (field : IsField key counts get value_of) where
    -- One item, where the last value of the lines behind it is given.
    by_item :
        (k v : Bytes) (o : Option Bytes) (config config' : Config M S)
        → sync_config_item_handler host k v config ≡ some (true, config')
        → by_value value_of o (get config')
          ≡ by_value value_of
              (elim o [
                | some w ↦ some w
                | none ↦ if equal_nocase k key && counts v then some v else none
              ])
              (get config)
    unfolding by_value
    by_item k v (some w) config config' h = refl
    by_item k v none config config' h = elim (Bool-cases (equal_nocase k key && counts v)) [
      | inl e ↦
          let (same, count) = and_true (equal_nocase k key) (counts v) e in
          rw (e, by_value)
            (field.changed v config config' (sym (handler_same k key v config same) ∙ h) count)
      | inr e ↦ rw (e, by_value) (field.kept k v config config' h e)
    ]

    item-field :
        (k v : Bytes) (ls : List Line) (result : Bool) (config config' : Config M S)
        (r : Option (Bool × Config M S))
        → sync_config_item_handler host k v config ≡ r
        → configured host (item k v ∷ ls) result config ≡ some (some config')
        → ((config₁ : Config M S)
            → configured host ls true config₁ ≡ some (some config')
            → get config' ≡ by_value value_of (last_value key counts ls) (get config₁))
        → get config' ≡ by_value value_of (last_value key counts (item k v ∷ ls)) (get config)
    unfolding configured last_value
    item-field k v ls result config config' none e h ih =
        absurd (no_config (rw (e, configured) at h))
    item-field k v ls result config config' (some (false, c)) e h ih =
        absurd (null_config (rw (e, configured) at h))
    item-field k v ls result config config' (some (true, c)) e h ih =
        ih c (rw (e, configured) at h) ∙ by_item k v (last_value key counts ls) config c e

    pub configured_field :
        (ls : List Line) (result : Bool) (config config' : Config M S)
        → configured host ls result config ≡ some (some config')
        → get config' ≡ by_value value_of (last_value key counts ls) (get config)
    unfolding configured last_value by_value
    configured_field [] true config config' h =
        ap get (sym (same_config {x = config} {y = config'} h))
    configured_field [] false config config' h = cc
    configured_field (skipped ∷ ls) result config config' h =
        configured_field ls result config config' h
    configured_field (item k v ∷ ls) result config config' h =
        item-field k v ls result config config' (sync_config_item_handler host k v config) refl h
          (λ c q. configured_field ls true c config' q)
