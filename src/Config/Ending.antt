-- ===== src/Config/Ending.antt =====
-- How `sync_config_load` ends, item by item.
use mathlib.Core.Path.{subst}
use sync_agent.Base.{
  ℕ, ◌+◌, ◌≡◌, ◌≢◌, ◌∙◌, sym, ap, refl, Bool, true, false, not, none, some, Option, List, [], ◌∷◌,
  Bytes, arith, codes, equal_nocase, ◌&&◌, ◌||◌, length, if◌then◌else◌, Bool-cases, inl, inr,
}
use sync_agent.Property.{Line, skipped, item}
use sync_agent.Property.Loop.{Holds}
use sync_agent.Config.{
  Config, Host, sync_config_item_handler, set_subscribe, zeroed, sync_config_load,
}
use sync_agent.Config.Lists.{IsReadySet, IsReadyMap, Subscriptions, subscribe_map_handler}
use sync_agent.Config.Entries.{Entry}
use sync_agent.Config.Reference.{read_list}
use sync_agent.Config.Reading.{Follows, subscribe_map_handler-Follows}
use sync_agent.Config.Load.{configured, sync_config_load_lem}
use sync_agent.Config.Accept.{keys, accepts, is_some, handler-accepts}
use sync_agent.Config.Fields.{not_empty, handler_same}
use sync_agent.Config.Verdict.{parses, handler_total}

-- The value is no list of subscriptions, or one whose entries have colons.
abbrev pub well_listed : Bytes → Bytes → Bool
well_listed key value =
    not (equal_nocase key (codes "subscribe_path") && not_empty value) || is_some (read_list value)

-- How loading ends.
pub data Ending : Type 0 where
  faults null loads : Ending

-- Up to the first item that is not accepted; the flag says whether there was one before these lines.
abbrev pub ending : List Line → Bool → Ending
ending [] true = loads
ending [] false = null
ending (skipped ∷ ls) result = ending ls result
ending (item key value ∷ ls) result =
    let rest = ending ls true in
    if well_listed key value then (if accepts key value keys then rest else null) else faults

abbrev pub Comes : {A : Type 0} → Ending → Option (Option A) → Type 0
Comes faults o = o ≡ none
Comes null o = o ≡ some none
Comes {A} loads o = (config : A) × (o ≡ some (some config))

same_key : equal_nocase (codes "subscribe_path") (codes "subscribe_path") ≡ true
unfolding equal_nocase
same_key = refl

reply_ne : {A : Type 0} {x : A} → none ≢ some x
reply_ne e = cc

module _ {M S : Type 0} (host : Host M S) where
  -- An item that the handler returns on.
  replied :
      (key value : Bytes) (ls : List Line) (result : Bool) (config : Config M S) (more : Bool)
      (c : Config M S)
      → sync_config_item_handler host key value config ≡ some (more, c)
      → ((config' : Config M S) → Comes (ending ls true) (configured host ls true config'))
      → Comes
          (if more then ending ls true else null)
          (configured host (item key value ∷ ls) result config)
  unfolding configured
  replied key value ls result config true c e rest = rw (e, configured) (rest c)
  replied key value ls result config false c e rest = rw (e, configured) refl

module _ {M S : Type 0} (host : Host M S) (map_ok : IsReadyMap host.maps)
    (set_ok : IsReadySet host.sets) where
  by_reading :
      (o : Option (List Entry)) (r : Option (Subscriptions M S))
      → Follows host.maps host.sets o r
      → is_some r ≡ is_some o
  by_reading none r f = rw f
  by_reading (some es) r (subs, made, sound, served) = ap is_some made

  parses-well_listed : (key value : Bytes) → parses host key value ≡ well_listed key value
  unfolding parses
  parses-well_listed key value = rw (
      by_reading (read_list value) (subscribe_map_handler host.maps host.sets value)
        (subscribe_map_handler-Follows host.maps host.sets value map_ok set_ok))

  module _ (memory : (n : ℕ) → host.malloc n ≡ true) where
    list_faults :
        (value : Bytes) (config : Config M S)
        → parses host (codes "subscribe_path") value ≡ false
        → sync_config_item_handler host (codes "subscribe_path") value config ≡ none
    unfolding sync_config_item_handler set_subscribe parses equal_nocase
    list_faults [] config n = cc
    list_faults (x ∷ xs) config n =
        let enough = memory (length (x ∷ xs) + 1) in ground (arith, enough)

    parses_same :
        (key value : Bytes)
        → equal_nocase key (codes "subscribe_path") ≡ true
        → parses host key value ≡ parses host (codes "subscribe_path") value
    unfolding parses
    parses_same key value e = rw (e, same_key)

    handler_faults :
        (key value : Bytes) (config : Config M S)
        → well_listed key value ≡ false
        → sync_config_item_handler host key value config ≡ none
    unfolding parses
    handler_faults key value config n =
        let parse = parses-well_listed key value ∙ n in
        elim (Bool-cases (equal_nocase key (codes "subscribe_path"))) [
          | inl e ↦
              handler_same host key (codes "subscribe_path") value config e
              ∙ list_faults value config (sym (parses_same key value e) ∙ parse)
          | inr f ↦ absurd (ground (arith, parse, f))
        ]

    by_reply :
        (key value : Bytes) (ls : List Line) (result : Bool) (config : Config M S)
        (r : Option (Bool × Config M S))
        → sync_config_item_handler host key value config ≡ r
        → ((config' : Config M S) → Comes (ending ls true) (configured host ls true config'))
        → Comes
            (ending (item key value ∷ ls) result)
            (configured host (item key value ∷ ls) result config)
    unfolding configured
    by_reply key value ls result config none e rest = elim (Bool-cases (well_listed key value)) [
      | inl t ↦
          absurd (handler_total host set_ok key value config (parses-well_listed key value ∙ t) e)
      | inr f ↦ rw (f, e, configured) refl
    ]
    by_reply key value ls result config (some (more, c)) e rest =
        elim (Bool-cases (well_listed key value)) [
          | inl t ↦
              rw (t, sym (handler-accepts host memory key value config c more e))
                (replied host key value ls result config more c e rest)
          | inr f ↦ absurd (reply_ne (sym (handler_faults key value config f) ∙ e))
        ]

    configured-Comes :
        (ls : List Line) (result : Bool) (config : Config M S)
        → Comes (ending ls result) (configured host ls result config)
    unfolding configured
    configured-Comes [] true config = (config, refl)
    configured-Comes [] false config = refl
    configured-Comes (skipped ∷ ls) result config = configured-Comes ls result config
    configured-Comes (item key value ∷ ls) result config =
        by_reply key value ls result config (sync_config_item_handler host key value config) refl
          (λ c. configured-Comes ls true c)

    -- On a file that can be opened and whose lines are blank, comments or items, with a comment
    -- character, where no call of `malloc` fails and the byte behind each array of
    -- `watch_set_handler` and `subscribe_map_handler` can be written, `sync_config_load` ends by the first item that is not
    -- accepted: it faults there if the item is a `subscribe_path` whose value is not empty and has an entry
    -- without a colon, and returns NULL if the key and value are not in the table of keys. If all items
    -- are accepted it returns a configuration, and NULL if there are none.
    pub sync_config_load-Comes :
        (c : ℕ) (fopen : Bytes → Option Bytes) (path content : Bytes) (ls : List Line)
        → c ≢ 0
        → fopen path ≡ some content
        → Holds c content ls
        → Comes (ending ls false) (sync_config_load host c fopen true true path)
    sync_config_load-Comes c fopen path content ls nz e holds =
        subst (Comes (ending ls false))
          (sym (sync_config_load_lem host c fopen path content ls nz e holds))
          (configured-Comes ls false zeroed)
