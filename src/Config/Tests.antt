-- ===== src/Config/Tests.antt =====
-- Runs of the configuration, and its theorems, with a list for the set and an association list for the
-- map.
use sync_agent.Base.{c_string}
use sync_agent.Base.{
  ℕ, ◌≡◌, refl, true, false, none, some, Option, List, [], ◌∷◌, ◌++◌, Bytes, codes, arith, equal,
  if◌then◌else◌,
}
use sync_agent.Base.Int.{pos}
use sync_agent.Text.{all_space}
use sync_agent.Text.Scan.{until}
use sync_agent.Text.Strip.{trimmed}
use sync_agent.Property.{item}
use sync_agent.Property.Loop.{Holds, ended, unended, entry}
use sync_agent.Config.{Host, zeroed, sync_config_load}
use sync_agent.Config.Lists.{
  SetOps, IsReadySet, MapOps, IsReadyMap, Subscriptions, watch_set_handler, subscribe_map_handler,
}
use sync_agent.Config.Entries.{Entry, IsPlain, listing, entry_text}
use sync_agent.Config.Subscribe.{IsSound}
use sync_agent.Config.Subscribed.{subscribed}
use sync_agent.Config.Listing.{wanted}
use sync_agent.Config.Served.{subscribe_map_handler_lem, subscribe_map_handler_faults}
use sync_agent.Config.Parts.{parts, split_by, watch_set_handler-parts}
use sync_agent.Config.Sets.{member, joined, watch_set_handler_lem}
use sync_agent.Property.{property_read}
use sync_agent.Text.{is_blank, is_comment, trim_str, delete_comment, char_at}
use sync_agent.Config.Keys.{Says, sync_config_load-Says}
use sync_agent.Base.{equal_nocase, ◌&&◌}
use sync_agent.Text.{leading}
use sync_agent.Text.Strip.{skip_spaces}
use sync_agent.Config.{Config}
use sync_agent.Config.Accept.{is_some}
use sync_agent.Config.Verdict.{parses, all_accepted, has_item, sync_config_load_verdict}
use sync_agent.Base.{map}
use sync_agent.Log.{Env, initial, log_level_str}
use sync_agent.Config.Dump.{Printer, sync_config_dump}
use sync_agent.Config.Dump.Rows.{aligned, key_line, fields, keys_in, sync_config_dump_lem}
use sync_agent.Config.Load.{configured, sync_config_load_lem}

abbrev list_set : SetOps (List Bytes)
list_set = record {
  set_malloc = true;
  spare = λ n. true;
  set_init = [];
  set_add = λ x s. x ∷ s;
  set_contains = member;
}

list_set-IsReadySet : IsReadySet list_set
unfolding member
list_set-IsReadySet = record {
  hash_set = record { contains-init = λ x. refl; contains-add = λ x y s. refl };
  set_mallocs = refl;
  spares = λ n. refl;
}

abbrev Table : Type 0
Table = List (Bytes × ℕ)

unfoldable find : Bytes → Table → Option ℕ
find k [] = none
find k (p ∷ rest) = let later = find k rest in if equal k p.0 then some p.1 else later

abbrev add_new : Bytes → ℕ → Table → Option ℕ → Table
add_new k v t none = (k, v) ∷ t
add_new k v t (some w) = t

unfoldable add : Bytes → ℕ → Table → Table
unfolding find
add k v t = add_new k v t (find k t)

abbrev table_map : MapOps Table
table_map = record {
  host_malloc = λ n. true;
  set_malloc = true;
  spare = λ n. true;
  hashmap_new = [];
  hashmap_find = find;
  hashmap_add = add;
}

table_map-IsReadyMap : IsReadyMap table_map
unfolding add find
table_map-IsReadyMap = record {
  hash_map = record {
    find-new = λ k. refl;
    find-add_new = λ j k v m e. rw e;
    find-add_old = λ j k v w m e. rw e;
  };
  host_mallocs = λ n. refl;
  set_mallocs = refl;
  spares = λ n. refl;
}

abbrev home : Entry
home = record { host = codes "h1"; first = codes "a"; others = codes "b" ∷ [] }

abbrev away : Entry
away = record { host = codes "h2"; first = []; others = [] }

home-IsPlain : IsPlain home
home-IsPlain = record {
  host_colon = omega arith;
  host_comma = omega arith;
  path_bar = omega arith;
  path_comma = omega arith;
}

away-IsPlain : IsPlain away
away-IsPlain = record {
  host_colon = omega arith;
  host_comma = omega arith;
  path_bar = omega arith;
  path_comma = omega arith;
}

-- The text is `h1:a|b,h2:,h1:a|b`.
subscribe_map_handler_lem_example :
    (subs : Subscriptions Table (List Bytes)) × (subscribe_map_handler table_map list_set
        (listing (home ∷ away ∷ []) (entry_text home))
      ≡ some subs)
    × IsSound table_map list_set subs
    × ((host path : Bytes)
        → subscribed table_map list_set subs host path ≡ wanted (home ∷ away ∷ home ∷ []) host path)
subscribe_map_handler_lem_example =
    subscribe_map_handler_lem table_map list_set table_map-IsReadyMap list_set-IsReadySet
      (home ∷ away ∷ []) (some home) (home-IsPlain, (away-IsPlain, (home-IsPlain, tt)))

subscribe_map_handler_faults_example :
    subscribe_map_handler table_map list_set (listing (home ∷ []) (codes "path" ++ codes ",h2:p"))
    ≡ none
subscribe_map_handler_faults_example =
    subscribe_map_handler_faults table_map list_set table_map-IsReadyMap list_set-IsReadySet
      (home ∷ []) (codes "path") (codes ",h2:p") (home-IsPlain, tt) (λ e. cc) (omega arith)
      (omega arith) refl

abbrev host : Host Table (List Bytes)
host = record { sets = list_set; maps = table_map; atoi = λ s. pos 9901; malloc = λ n. true }

-- Two entries of one host share its set.
subscribes :
    subscribe_map_handler table_map list_set (codes "h1:a|b,h2:c,h1:d")
    ≡ some (record {
      map = (codes "h2", 1) ∷ (codes "h1", 0) ∷ [];
      sets = (codes "d" ∷ codes "b" ∷ codes "a" ∷ []) ∷ (codes "c" ∷ []) ∷ [];
    })
unfolding subscribe_map_handler find add equal
subscribes = refl

-- An entry with no host.
faults : subscribe_map_handler table_map list_set (codes "path,h:p") ≡ none
unfolding subscribe_map_handler find add equal
faults = refl

watch_set_handler_lem_example :
    (s : List Bytes) × (watch_set_handler list_set (joined (codes "/a") (codes "/b" ∷ [] ∷ []))
      ≡ some s)
    × ((x : Bytes) → list_set.set_contains x s ≡ member x (codes "/a" ∷ codes "/b" ∷ [] ∷ []))
watch_set_handler_lem_example =
    watch_set_handler_lem list_set list_set-IsReadySet (codes "/a") (codes "/b" ∷ [] ∷ [])
      (omega arith)

abbrev content : Bytes
content = codes "daemon=yes\nport=9901"

content-Holds : Holds b'#' content (
    item (trimmed (codes "daemon")) (trimmed (codes "yes\n"))
    ∷ item (trimmed (codes "port")) (trimmed (codes "9901"))
    ∷ [])
unfolding until all_space
content-Holds =
    ended (codes "daemon=yes") refl (omega arith) (omega arith) (omega arith)
      (entry (codes "daemon") (codes "yes\n") refl (omega arith) refl)
      (unended (cc) (omega arith) (omega arith) (omega arith)
        (entry (codes "port") (codes "9901") refl (omega arith) refl))

sync_config_load_lem_example :
    sync_config_load host b'#' (λ n. some content) true true []
    ≡ configured host
        (item (trimmed (codes "daemon")) (trimmed (codes "yes\n"))
          ∷ item (trimmed (codes "port")) (trimmed (codes "9901"))
          ∷ [])
        false
        zeroed
sync_config_load_lem_example =
    sync_config_load_lem host b'#' (λ n. some content) [] content _ (omega arith) refl content-Holds

sync_config_load-Says_example :
    Says host
      (item (trimmed (codes "daemon")) (trimmed (codes "yes\n"))
        ∷ item (trimmed (codes "port")) (trimmed (codes "9901"))
        ∷ [])
      (record zeroed { daemon = true; port = pos 9901 })
unfolding sync_config_load property_read is_blank is_comment trim_str delete_comment char_at
    c_string
sync_config_load-Says_example =
    sync_config_load-Says host b'#' (λ n. some content) [] content _ _ (omega arith) refl
      content-Holds refl

sync_config_load_verdict_example :
    (r : Option (Config Table (List Bytes))) × (sync_config_load host b'#'
        (λ n. some content)
        true
        true
        []
      ≡ some r)
    × (is_some r ≡ (
        all_accepted (
          item (trimmed (codes "daemon")) (trimmed (codes "yes\n"))
          ∷ item (trimmed (codes "port")) (trimmed (codes "9901"))
          ∷ [])
        && has_item (
            item (trimmed (codes "daemon")) (trimmed (codes "yes\n"))
            ∷ item (trimmed (codes "port")) (trimmed (codes "9901"))
            ∷ [])))
unfolding parses all_space leading skip_spaces equal_nocase equal
sync_config_load_verdict_example =
    sync_config_load_verdict host (λ n. refl) list_set-IsReadySet b'#' (λ n. some content) []
      content _ (omega arith) refl content-Holds refl

-- Each set with an empty slot behind its keys.
abbrev printer : Printer Table (List Bytes)
printer = record {
  nodes = λ s. map some s ++ none ∷ [];
  find_nodes = λ t. t;
  null_text = codes "(null)";
}

abbrev dumped : Config Table (List Bytes)
dumped = record zeroed {
  mode = some (codes "server");
  watch_set = some (codes "/a" ∷ []);
  subscribe_map =
      some (record { map = (codes "h1", 0) ∷ []; sets = (codes "/b" ∷ codes "/c" ∷ []) ∷ [] });
}

abbrev quiet : Env
quiet = record {
  strftime = λ format. [];
  tm = record { mon = 1; mday = 1; hour = 0; minute = 0; sec = 0 };
  pid = 1;
  sent = pos 0;
}

sync_config_dump_lem_example :
    (name : Bytes) × (log_level_str initial quiet (λ f. some f) (pos 0) ≡ some (some name, []))
    × (sync_config_dump printer initial quiet (λ f. some f) dumped
        ≡ some (
            codes "========================= SYNC CONFIG ===================\n"
            ∷ (map (λ f. aligned 30 f.0 f.1) (fields printer name dumped)
                ++ (aligned 30 (codes "watch_set:") []
                    ∷ key_line 10 (codes "/a")
                    ∷ aligned 30 (codes "subscribe_map:") []
                    ∷ key_line 10 (codes "h1")
                    ∷ key_line 20 (codes "/b")
                    ∷ key_line 20 (codes "/c")
                    ∷ aligned 30 (codes "watch_set:") []
                    ∷ codes "===========================================================\n"
                    ∷ []))))
unfolding keys_in
sync_config_dump_lem_example =
    sync_config_dump_lem printer initial quiet (λ f. some f) dumped 0 (omega arith) refl
      ((codes "/b" ∷ codes "/c" ∷ [], refl), tt)

watch_set_handler-parts_example :
    (s : List Bytes) × (watch_set_handler list_set (codes "/a,,/b,") ≡ some s)
    × ((x : Bytes) → list_set.set_contains x s ≡ member x (parts b',' (codes "/a,,/b,")))
watch_set_handler-parts_example =
    watch_set_handler-parts list_set (codes "/a,,/b,") list_set-IsReadySet

parts_of_list : parts b',' (codes "/a,,/b,") ≡ codes "/a" ∷ [] ∷ codes "/b" ∷ [] ∷ []
unfolding split_by
parts_of_list = refl
