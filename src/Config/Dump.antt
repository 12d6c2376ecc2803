-- ===== src/Config/Dump.antt =====
-- `sync_config_dump` of src/agent/sync_config.c: the lines that it prints, in order. The slots of a set
-- and the nodes of a map, which the code reads in the structures of the hash set and the hash map, are
-- an interface.
pub mod Rows
use mathlib.Core.Option
use sync_agent.Base.{
  ℕ, zero, suc, ◌+◌, ◌-◌, Bool, true, false, Option, none, some, List, [], ◌∷◌, ◌++◌, if◌then◌else◌,
  length, get_elem?, replicate, Bytes, codes,
}
use sync_agent.Base.Decimal.{show_int}
use sync_agent.Log.{Log, Env, Args, log_level_str}
use sync_agent.Property.{◌>>=◌}
use sync_agent.Config.{Config, LogDst, dst_console, dst_file}
use sync_agent.Config.Lists.{Subscriptions}

pub record Printer (M S : Type 0) : Type 0 where
  -- The `number_nodes` slots of `nodes`, each NULL or a node with its `_key`.
  pub nodes : S → List (Option Bytes)
  -- What `hashmap_findfirst` and `hashmap_findnext` give: the `key` and the `data` of each node.
  pub find_nodes : M → List (Bytes × ℕ)
  -- What `printf` makes of a NULL pointer for `%s`, which C leaves open.
  pub null_text : Bytes

-- `%-30s` and the like.
abbrev pub left_justified : ℕ → Bytes → Bytes
left_justified width s = s ++ replicate (width - length s) b' '

-- `printf("%-10s%s\n", " ", key)` and the like.
abbrev pub row : ℕ → Bytes → Bytes
row width key = left_justified width (codes " ") ++ (key ++ codes "\n")

-- `printf("%-30s%s\n", label, text)`
abbrev pub field_line : Bytes → Bytes → Bytes
field_line label text = left_justified 30 label ++ (text ++ codes "\n")

-- `printf("%-30s\n", label)`
abbrev pub label_line : Bytes → Bytes
label_line label = left_justified 30 label ++ codes "\n"

-- The loop over the slots of a set, from `index` on with `left` rounds to go; `none` is a read out of
-- bounds.
unfoldable pub print_nodes : (width left index : ℕ) → List (Option Bytes) → Option (List Bytes)
print_nodes width zero index slots = some []
print_nodes width (suc left) index slots =
    let rest = print_nodes width left (index + 1) slots in
    elim (get_elem? slots index) [
      | none ↦ none
      | some none ↦ rest
      | some (some key) ↦ Option.map (λ ls. row width key ∷ ls) rest
    ]

-- `log_dst_strs`
abbrev pub dst_name : LogDst → Bytes
dst_name dst_console = codes "console"
dst_name dst_file = codes "file"

module _ {M S : Type 0} (printer : Printer M S) where
  abbrev pub print_set : ℕ → S → Option (List Bytes)
  print_set width s = print_nodes width (length (printer.nodes s)) 0 (printer.nodes s)

  abbrev pub print_if_set : Option S → Option (List Bytes)
  print_if_set none = some []
  print_if_set (some s) = print_set 10 s

  -- The loop over the nodes of the map: each host with the paths of its set.
  unfoldable pub print_hosts : List S → List (Bytes × ℕ) → Option (List Bytes)
  unfolding print_nodes
  print_hosts sets [] = some []
  print_hosts sets (node ∷ rest) =
      let more = print_hosts sets rest in
      elim (get_elem? sets node.1) [
        | none ↦ none
        | some s ↦ do
          paths ← print_set 20 s
          others ← more
          some (row 10 node.0 ∷ (paths ++ others))
      ]

  abbrev pub print_if_map : Option (Subscriptions M S) → Option (List Bytes)
  print_if_map none = some []
  print_if_map (some subs) = print_hosts subs.sets (printer.find_nodes subs.map)

  abbrev pub text_or_null : Option Bytes → Bytes
  text_or_null none = printer.null_text
  text_or_null (some s) = s

  -- The lines of the fields that are no sets, with the name of the level.
  abbrev pub field_lines : Option Bytes → Config M S → List Bytes
  field_lines level config =
      field_line (codes "daemon: ") (if config.daemon then codes "yes" else codes "no")
      ∷ field_line (codes "log_level: ") (text_or_null level)
      ∷ field_line (codes "log_dst: ") (dst_name config.log_dst)
      ∷ field_line (codes "log_file: ") (text_or_null config.log_file)
      ∷ field_line (codes "mode: ") (text_or_null config.mode)
      ∷ field_line (codes "port: ") (show_int config.port)
      ∷ field_line (codes "watch_path: ") (text_or_null config.watch_path)
      ∷ field_line (codes "subscribe_path: ") (text_or_null config.subscribe_path)
      ∷ []

  -- `sync_config_dump`; `none` is a fault.
  unfoldable pub sync_config_dump : Log → Env → Args → Config M S → Option (List Bytes)
  unfolding print_hosts
  sync_config_dump log env args config = do
    (level, effects) ← log_level_str log env args config.log_level
    watched ← print_if_set config.watch_set
    subscribed ← print_if_map config.subscribe_map
    servers ← print_if_set config.server_list
    some (
        codes "========================= SYNC CONFIG ===================\n"
        ∷ (field_lines level config
            ++ (label_line (codes "watch_set:") ∷ watched
                ++ (label_line (codes "subscribe_map:") ∷ subscribed
                    ++ (label_line (codes "watch_set:") ∷ servers
                        ++ codes "===========================================================\n"
                          ∷ [])))))
