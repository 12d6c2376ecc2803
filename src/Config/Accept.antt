-- ===== src/Config/Accept.antt =====
-- Which files `sync_config_load` takes: the keys and values that the handler accepts.
use sync_agent.Base.{
  ℕ, ◌+◌, ◌≡◌, ◌⊎◌, ◌∙◌, sym, refl, Bool, true, false, none, some, Option, List, [], ◌∷◌, Bytes,
  arith, codes, equal_nocase, ◌&&◌, ◌||◌, length, Bool-cases, inl, inr,
}
use sync_agent.Log.{log_level_int}
use sync_agent.Config.{
  Config, Host, sync_config_item_handler, set_daemon, set_level, set_dst, set_file, set_mode,
  set_watch, set_subscribe, set_servers,
}
use sync_agent.Config.Fields.{equal_nocase_same, handler_same}

-- The keys of a configuration file with their values: `none` stands for any.
abbrev pub keys : List (Bytes × Option (List Bytes))
keys =
    (codes "daemon", some (codes "yes" ∷ codes "no" ∷ []))
    ∷ (codes "log_level", some (codes "debug" ∷ codes "info" ∷ codes "warn" ∷ codes "error" ∷ []))
    ∷ (codes "log_dst", some (codes "console" ∷ codes "file" ∷ []))
    ∷ (codes "log_file", none)
    ∷ (codes "mode", none)
    ∷ (codes "port", none)
    ∷ (codes "watch_path", none)
    ∷ (codes "subscribe_path", none)
    ∷ (codes "server_list", none)
    ∷ []

abbrev pub one_of : Bytes → List Bytes → Bool
one_of value [] = false
one_of value (v ∷ vs) = equal_nocase value v || one_of value vs

abbrev pub allows : Option (List Bytes) → Bytes → Bool
allows none value = true
allows (some vs) value = one_of value vs

-- The key is in the table with such a value.
unfoldable pub accepts : Bytes → Bytes → List (Bytes × Option (List Bytes)) → Bool
accepts key value [] = false
accepts key value ((k, vs) ∷ rest) = equal_nocase key k && allows vs value || accepts key value rest

abbrev pub is_some {ℓ} : {A : Type ℓ} → Option A → Bool
is_some none = false
is_some (some a) = true

accepts_same :
    (k a v : Bytes) (table : List (Bytes × Option (List Bytes)))
    → equal_nocase k a ≡ true
    → accepts k v table ≡ accepts a v table
unfolding accepts
accepts_same k a v [] e = refl
accepts_same k a v ((b, vs) ∷ table) e = rw (equal_nocase_same k a b e, accepts_same k a v table e)

-- No key of the table is the key.
abbrev pub NoneOf : Bytes → List (Bytes × Option (List Bytes)) → Type 0
NoneOf key [] = Unit
NoneOf key ((k, vs) ∷ table) = (equal_nocase key k ≡ false) × NoneOf key table

-- Every key of the table is as `P` says.
abbrev pub AllKeys : (Bytes → Type 0) → List (Bytes × Option (List Bytes)) → Type 0
AllKeys P [] = Unit
AllKeys P ((k, vs) ∷ table) = P k × AllKeys P table

-- The first key of the table that is the key, or none is.
pub find_key :
    (P : Bytes → Type 0) (key : Bytes) (table : List (Bytes × Option (List Bytes)))
    → AllKeys P table
    → ((a : Bytes) × (equal_nocase key a ≡ true) × P a) ⊎ NoneOf key table
find_key P key [] r = inr tt
find_key P key ((k, vs) ∷ table) r = elim (Bool-cases (equal_nocase key k)) [
  | inl e ↦ inl (k, e, r.0)
  | inr n ↦ elim (find_key P key table r.1) [ inl f ↦ inl f | inr ns ↦ inr (n, ns) ]
]

module _ {M S : Type 0} (host : Host M S) (memory : (n : ℕ) → host.malloc n ≡ true) where
  -- On this key the handler returns what the table says.
  abbrev Right : Bytes → Type 0
  Right key =
      (value : Bytes) (config config' : Config M S) (more : Bool)
      → sync_config_item_handler host key value config ≡ some (more, config')
      → more ≡ accepts key value keys

  keys-Right : AllKeys Right keys
  unfolding sync_config_item_handler set_daemon set_level set_dst set_file set_mode set_watch
      set_subscribe set_servers log_level_int accepts equal_nocase
  keys-Right = (
    (λ v c c' m h. ground arith),
    (
      (λ v c c' m h. ground arith),
      (
        (λ v c c' m h. ground arith),
        (
          (λ v c c' m h. let r = memory (length v + 1) in ground (arith, r)),
          (
            (λ v c c' m h. let r = memory (length v + 1) in ground (arith, r)),
            (
              (λ v c c' m h. ground arith),
              (
                (λ v c c' m h. let r = memory (length v + 1) in ground (arith, r)),
                (
                  (λ v c c' m h. let r = memory (length v + 1) in ground (arith, r)),
                  ((λ v c c' m h. ground arith), tt),
                ),
              ),
            ),
          ),
        ),
      ),
    ),
  )

  unknown_key :
      (key value : Bytes) (config config' : Config M S) (more : Bool)
      → NoneOf key keys
      → sync_config_item_handler host key value config ≡ some (more, config')
      → more ≡ accepts key value keys
  unfolding sync_config_item_handler accepts
  unknown_key key value config config' more n h = ground arith

  pub handler-accepts :
      (key value : Bytes) (config config' : Config M S) (more : Bool)
      → sync_config_item_handler host key value config ≡ some (more, config')
      → more ≡ accepts key value keys
  handler-accepts key value config config' more h = elim (find_key Right key keys keys-Right) [
    | inl f ↦
        f.2 value config config' more (sym (handler_same host key f.0 value config f.1) ∙ h)
        ∙ sym (accepts_same key f.0 value keys f.1)
    | inr n ↦ unknown_key key value config config' more n h
  ]
