-- ===== src/Config/Dump/Rows.antt =====
-- What `sync_config_dump` prints of the sets and of the map.

use sync_agent.Base.{
  ℕ, suc, ◌+◌, ◌≤◌, ◌≡◌, ap, refl, Option, none, some, List, [], ◌∷◌, ◌++◌, length, get_elem?, map,
  replicate, ◌-◌, if◌then◌else◌, arith, Bytes, codes,
}
use sync_agent.Base.Int.{pos}
use sync_agent.Base.Decimal.{show_int}
use sync_agent.Log.{Log, Env, Args, log_level_str}
use sync_agent.Log.Levels.{log_level_int-log_level_str}
use sync_agent.Config.{Config}
use sync_agent.Config.Lists.{Subscriptions}
use sync_agent.Config.Dump.{
  Printer, dst_name, print_nodes, print_set, print_if_set, print_hosts, print_if_map,
  sync_config_dump,
}

-- `text` in a line, behind `left` filled up to `width` with spaces.
abbrev pub aligned : ℕ → Bytes → Bytes → Bytes
aligned width left text = (left ++ replicate (width - length left) b' ') ++ (text ++ codes "\n")

-- A line with a key in it.
abbrev pub key_line : ℕ → Bytes → Bytes
key_line width key = aligned width (codes " ") key

-- The keys in the slots.
unfoldable pub keys_in : List (Option Bytes) → List Bytes
keys_in [] = []
keys_in (none ∷ slots) = keys_in slots
keys_in (some key ∷ slots) = key ∷ keys_in slots

-- The loop over the slots from `index` on, where the rest of them is given.
print_nodes_lem :
    (width index : ℕ) (slots all : List (Option Bytes))
    → ((i j : ℕ) → j ≡ index + i → get_elem? all j ≡ get_elem? slots i)
    → print_nodes width (length slots) index all ≡ some (map (key_line width) (keys_in slots))
unfolding print_nodes keys_in
print_nodes_lem width index [] all h = refl
print_nodes_lem width index (none ∷ slots) all h =
    rw (h 0 index (omega arith), print_nodes)
      (print_nodes_lem width (index + 1) slots all (λ i j e. h (suc i) j (omega arith)))
print_nodes_lem width index (some key ∷ slots) all h = rw (
  h 0 index (omega arith),
  print_nodes,
  print_nodes_lem width (index + 1) slots all (λ i j e. h (suc i) j (omega arith)),
)

module _ {M S : Type 0} (printer : Printer M S) where
  print_set_lem :
      (width : ℕ) (s : S)
      → print_set printer width s ≡ some (map (key_line width) (keys_in (printer.nodes s)))
  print_set_lem width s =
      print_nodes_lem width 0 (printer.nodes s) (printer.nodes s)
        (λ i j e. let same : j ≡ i = omega arith in ap (get_elem? (printer.nodes s)) same)

  abbrev pub keys_of : Option S → List Bytes
  keys_of none = []
  keys_of (some s) = keys_in (printer.nodes s)

  print_if_set_lem : (o : Option S) → print_if_set printer o ≡ some (map (key_line 10) (keys_of o))
  unfolding keys_in
  print_if_set_lem none = refl
  print_if_set_lem (some s) = print_set_lem 10 s

  -- Each host of the map, with the keys of its set.
  abbrev pub host_rows : List S → List (Bytes × ℕ) → List Bytes
  host_rows sets [] = []
  host_rows sets (node ∷ rest) =
      key_line 10 node.0
      ∷ (map (key_line 20) (keys_of (get_elem? sets node.1)) ++ host_rows sets rest)

  abbrev pub or_null : Option Bytes → Bytes
  or_null none = printer.null_text
  or_null (some text) = text

  -- What stands in the dump of a field, by its label, in order.
  abbrev pub fields : Bytes → Config M S → List (Bytes × Bytes)
  fields level config =
      (codes "daemon: ", if config.daemon then codes "yes" else codes "no")
      ∷ (codes "log_level: ", level)
      ∷ (codes "log_dst: ", dst_name config.log_dst)
      ∷ (codes "log_file: ", or_null config.log_file)
      ∷ (codes "mode: ", or_null config.mode)
      ∷ (codes "port: ", show_int config.port)
      ∷ (codes "watch_path: ", or_null config.watch_path)
      ∷ (codes "subscribe_path: ", or_null config.subscribe_path)
      ∷ []

  -- The pointers of the nodes are to sets.
  abbrev pub AllPoint : List S → List (Bytes × ℕ) → Type 0
  AllPoint sets [] = Unit
  AllPoint sets (node ∷ rest) = ((s : S) × (get_elem? sets node.1 ≡ some s)) × AllPoint sets rest

  print_hosts_lem :
      (sets : List S) (nodes : List (Bytes × ℕ))
      → AllPoint sets nodes
      → print_hosts printer sets nodes ≡ some (host_rows sets nodes)
  unfolding print_hosts
  print_hosts_lem sets [] h = refl
  print_hosts_lem sets (node ∷ rest) h =
      let (s, e) = h.0 in rw (e, print_hosts, print_set_lem 20 s, print_hosts_lem sets rest h.1)

  abbrev pub map_rows : Option (Subscriptions M S) → List Bytes
  map_rows none = []
  map_rows (some subs) = host_rows subs.sets (printer.find_nodes subs.map)

  abbrev pub MapPoints : Option (Subscriptions M S) → Type 0
  MapPoints none = Unit
  MapPoints (some subs) = AllPoint subs.sets (printer.find_nodes subs.map)

  print_if_map_lem :
      (o : Option (Subscriptions M S)) → MapPoints o → print_if_map printer o ≡ some (map_rows o)
  print_if_map_lem none h = refl
  print_if_map_lem (some subs) h = print_hosts_lem subs.sets (printer.find_nodes subs.map) h

  -- On a configuration whose level is one of the four and whose map points to sets only,
  -- `sync_config_dump` does not fault: it prints a line for each of the eight fields, in the order of
  -- the labels below and each with its own value, the level by its name, then a row for each key in a slot
  -- of the watched set, for each host of the map with the keys of its set, and for each key in a slot of
  -- the list of servers, and nothing for an empty slot.
  pub sync_config_dump_lem :
      (log : Log) (env : Env) (args : Args) (config : Config M S) (level : ℕ)
      → level ≤ 3
      → config.log_level ≡ pos level
      → MapPoints config.subscribe_map
      → (name : Bytes) × (log_level_str log env args (pos level) ≡ some (some name, []))
        × (sync_config_dump printer log env args config
            ≡ some (
                codes "========================= SYNC CONFIG ===================\n"
                ∷ (map (λ f. aligned 30 f.0 f.1) (fields name config)
                    ++ (aligned 30 (codes "watch_set:") []
                          ∷ map (key_line 10) (keys_of config.watch_set)
                        ++ (aligned 30 (codes "subscribe_map:") [] ∷ map_rows config.subscribe_map
                            ++ (aligned 30 (codes "watch_set:") []
                                  ∷ map (key_line 10) (keys_of config.server_list)
                                ++ codes
                                    "===========================================================\n"
                                  ∷ []))))))
  unfolding sync_config_dump
  sync_config_dump_lem log env args config level h e points =
      let (name, named, back) = log_level_int-log_level_str log env args level h in
      (
        name,
        named,
        rw (
          e,
          named,
          print_if_set_lem config.watch_set,
          print_if_map_lem config.subscribe_map points,
          print_if_set_lem config.server_list,
          sync_config_dump,
        ),
      )
