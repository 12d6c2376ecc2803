-- ===== src/Config/Verdict.antt =====
-- Which files `sync_config_load` takes, and that its parsers end.
use mathlib.Core.Path.{subst}
use sync_agent.Base.{
  ℕ, zero, suc, ◌+◌, ◌-◌, ◌<◌, ◌≡◌, ◌≢◌, ◌∙◌, sym, refl, Bool, true, false, not, none, some, Option,
  List, [], ◌∷◌, Bytes, arith, codes, equal_nocase, ◌&&◌, ◌||◌, length, drop, take, length-drop,
}
use sync_agent.Property.{Line, skipped, item}
use sync_agent.Property.Loop.{Holds}
use sync_agent.Config.{
  Config, Host, sync_config_item_handler, set_daemon, set_level, set_dst, set_file, set_mode,
  set_watch, set_subscribe, set_servers, zeroed, sync_config_load,
}
use sync_agent.Config.Lists.{
  SetOps, IsReadySet, index_of, add_elements, watch_set_handler, subscribe_map_handler,
}
use sync_agent.Config.Load.{configured, sync_config_load_lem}
use sync_agent.Config.Accept.{keys, accepts, is_some, handler-accepts}
use sync_agent.Config.Fields.{not_empty, and_true, no_config}

index_of-bound : (c : ℕ) (text : Bytes) (i : ℕ) → index_of c text ≡ some i → i < length text
unfolding index_of
index_of-bound c [] i e = cc
index_of-bound c (x ∷ text) i e = ground (arith, index_of-bound c text (i - 1))

by_comma :
    {S : Type 0} (ops : SetOps S) (ok : IsReadySet ops) (fuel : ℕ) (text : Bytes) (s : S)
    (o : Option ℕ)
    → index_of b',' text ≡ o
    → length text < suc fuel
    → ((len : ℕ)
        → length (drop (len + 1) text) < fuel
        → add_elements ops fuel (drop (len + 1) text) (ops.set_add (take len text) s) ≢ none)
    → add_elements ops (suc fuel) text s ≢ none
unfolding add_elements
by_comma ops ok fuel text s none e f rest h =
    absurd (no_config (sym (rw (e, add_elements, ok.spares (length text)) at h)))
by_comma ops ok fuel text s (some len) e f rest h =
    let within : len < length text = index_of-bound b',' text len e in
    rest len (omega (arith, length-drop (len + 1) text)) (rw (e, add_elements, ok.spares len) at h)

add_elements_total :
    {S : Type 0} (ops : SetOps S) (ok : IsReadySet ops) (fuel : ℕ) (text : Bytes) (s : S)
    → length text < fuel
    → add_elements ops fuel text s ≢ none
add_elements_total ops ok zero text s f h = absurd (omega arith)
add_elements_total ops ok (suc fuel) text s f h =
    by_comma ops ok fuel text s (index_of b',' text) refl f
      (λ len l.
        add_elements_total ops ok fuel (drop (len + 1) text) (ops.set_add (take len text) s) l)
      h

-- With memory `watch_set_handler` always ends: its fuel is enough.
watch_set_handler_total :
    {S : Type 0} (ops : SetOps S) (ok : IsReadySet ops) (text : Bytes)
    → watch_set_handler ops text ≢ none
unfolding watch_set_handler
watch_set_handler_total ops ok text =
    rw ok.set_mallocs
      (add_elements_total ops ok (suc (length text)) text ops.set_init (omega arith))

module _ {M S : Type 0} (host : Host M S) where
  -- The value of an item is no list of subscriptions, or one that the parser takes apart.
  unfoldable pub parses : Bytes → Bytes → Bool
  parses key value =
      not (equal_nocase key (codes "subscribe_path") && not_empty value)
      || is_some (subscribe_map_handler host.maps host.sets value)

  pub handler_total :
      IsReadySet host.sets
      → (key value : Bytes) (config : Config M S) → parses key value ≡ true
      → sync_config_item_handler host key value config ≢ none
  unfolding sync_config_item_handler set_daemon set_level set_dst set_file set_mode set_watch
      set_subscribe set_servers parses
  handler_total ready key value config p h =
      let t = watch_set_handler_total host.sets ready value in ground (arith, t)

  abbrev pub all_parse : List Line → Bool
  all_parse [] = true
  all_parse (skipped ∷ ls) = all_parse ls
  all_parse (item key value ∷ ls) = parses key value && all_parse ls

abbrev pub all_accepted : List Line → Bool
all_accepted [] = true
all_accepted (skipped ∷ ls) = all_accepted ls
all_accepted (item key value ∷ ls) = accepts key value keys && all_accepted ls

abbrev pub has_item : List Line → Bool
has_item [] = false
has_item (skipped ∷ ls) = has_item ls
has_item (item key value ∷ ls) = true

-- The result for the lines is that of the table.
abbrev Verdict : {A : Type 0} → Option (Option A) → Bool → Type 0
Verdict {A} o b = (r : Option A) × (o ≡ some r) × (is_some r ≡ b)

taken_in : (a result : Bool) → a ≡ (a && (result || true))
taken_in true true = refl
taken_in true false = refl
taken_in false result = refl

module _ {M S : Type 0} (host : Host M S) (memory : (n : ℕ) → host.malloc n ≡ true)
    (set_ok : IsReadySet host.sets) where
  by_reply :
      (key value : Bytes) (ls : List Line) (result : Bool) (config : Config M S)
      (r : Option (Bool × Config M S))
      → sync_config_item_handler host key value config ≡ r
      → parses host key value ≡ true
      → ((config' : Config M S) → Verdict (configured host ls true config') (all_accepted ls))
      → Verdict
          (configured host (item key value ∷ ls) result config)
          (accepts key value keys && all_accepted ls)
  unfolding configured
  by_reply key value ls result config none e p rest =
      absurd (handler_total host set_ok key value config p e)
  by_reply key value ls result config (some (false, c)) e p rest =
      let a = handler-accepts host memory key value config c false e in
      (none, rw (e, configured), rw (sym a))
  by_reply key value ls result config (some (true, c)) e p rest =
      let a = handler-accepts host memory key value config c true e in
      let (r, same, verdict) = rest c in (r, rw (e, configured) same, rw (sym a) verdict)

  configured-Verdict :
      (ls : List Line) (result : Bool) (config : Config M S)
      → all_parse host ls ≡ true
      → Verdict (configured host ls result config) (all_accepted ls && (result || has_item ls))
  unfolding configured
  configured-Verdict [] true config p = (some config, refl, refl)
  configured-Verdict [] false config p = (none, refl, refl)
  configured-Verdict (skipped ∷ ls) result config p = configured-Verdict ls result config p
  configured-Verdict (item key value ∷ ls) result config p =
      let (now, later) = and_true (parses host key value) (all_parse host ls) p in
      subst (Verdict (configured host (item key value ∷ ls) result config))
        (taken_in (accepts key value keys && all_accepted ls) result)
        (by_reply key value ls result config (sync_config_item_handler host key value config) refl
          now
          (λ c.
            subst (Verdict (configured host ls true c)) (sym (taken_in (all_accepted ls) false))
              (configured-Verdict ls true c later)))

  -- On a file that can be opened and whose lines are blank, comments or items, with a comment character
  -- and where no call of `malloc` fails: if the parser of subscriptions takes apart each value of
  -- `subscribe_path` that is not empty, `sync_config_load` ends without a fault; it returns a
  -- configuration exactly if the file has an item and each item's key and value are in the table of keys,
  -- and else NULL.
  pub sync_config_load_verdict :
      (c : ℕ) (fopen : Bytes → Option Bytes) (path content : Bytes) (ls : List Line)
      → c ≢ 0
      → fopen path ≡ some content
      → Holds c content ls
      → all_parse host ls ≡ true
      → (r : Option (Config M S)) × (sync_config_load host c fopen true true path ≡ some r)
        × (is_some r ≡ (all_accepted ls && has_item ls))
  sync_config_load_verdict c fopen path content ls nz e holds p =
      let (r, same, verdict) = configured-Verdict ls false zeroed p in
      (r, sync_config_load_lem host c fopen path content ls nz e holds ∙ same, verdict)
