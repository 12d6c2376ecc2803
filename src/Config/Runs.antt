-- ===== src/Config/Runs.antt =====
-- Runs of the reference parser and of loading, and the theorems about every text and every file.
use mathlib.Core.List.{Permᴰ}
use sync_agent.Base.{
  ◌≡◌, refl, true, false, some, none, List, [], ◌∷◌, Bytes, codes, arith, equal, equal_nocase,
}
use sync_agent.Base.Int.{pos}
use sync_agent.Text.{all_space, leading}
use sync_agent.Text.Scan.{until}
use sync_agent.Text.Strip.{trimmed, skip_spaces}
use sync_agent.Property.{item, Line}
use sync_agent.Property.Loop.{Holds, ended, unended, entry}
use sync_agent.Config.{Host, sync_config_load}
use sync_agent.Config.Lists.{Subscriptions, subscribe_map_handler}
use sync_agent.Config.Subscribed.{subscribed}
use sync_agent.Config.Order.{subscribe_map_handler_order}
use sync_agent.Config.Accept.{accepts}
use sync_agent.Config.Ending.{ending, Comes, sync_config_load-Comes}
use sync_agent.Config.Parts.{split_by}
use sync_agent.Config.Reference.{cut_at, read_list}
use sync_agent.Config.Reading.{Follows, subscribe_map_handler-Follows}
use sync_agent.Config.Stores.{list_set, list_set-IsReadySet, Table, table_map, table_map-IsReadyMap}

abbrev host : Host Table (List Bytes)
host = record { sets = list_set; maps = table_map; atoi = λ s. pos 9901; malloc = λ n. true }

subscribe_map_handler-Follows_example :
    Follows table_map list_set
      (read_list (codes "h1:a|b:c,,h2:d"))
      (subscribe_map_handler table_map list_set (codes "h1:a|b:c,,h2:d"))
subscribe_map_handler-Follows_example =
    subscribe_map_handler-Follows table_map list_set (codes "h1:a|b:c,,h2:d") table_map-IsReadyMap
      list_set-IsReadySet

-- An empty entry has no colon.
empty_entry : read_list (codes "h1:a|b:c,,h2:d") ≡ none
unfolding read_list split_by cut_at
empty_entry = refl

two_entries :
    read_list (codes "h1:a|b:c,h2:")
    ≡ some (
        record { host = codes "h1"; first = codes "a"; others = codes "b:c" ∷ [] }
        ∷ record { host = codes "h2"; first = []; others = [] }
        ∷ [])
unfolding read_list split_by cut_at
two_entries = refl

subscribe_map_handler_order_example :
    (subs : Subscriptions Table (List Bytes)) × (subs' : Subscriptions Table (List Bytes))
    × (subscribe_map_handler table_map list_set (codes "h1:a,h2:b") ≡ some subs)
    × (subscribe_map_handler table_map list_set (codes "h2:b,h1:a") ≡ some subs')
    × ((host path : Bytes)
        → subscribed table_map list_set subs host path
          ≡ subscribed table_map list_set subs' host path)
unfolding read_list split_by cut_at
subscribe_map_handler_order_example =
    subscribe_map_handler_order table_map list_set (codes "h1:a,h2:b") (codes "h2:b,h1:a")
      table_map-IsReadyMap list_set-IsReadySet refl refl ∣ Permᴰ.swap refl refl ∣₁

-- A file whose subscriptions have an entry without a colon, before a key that is not in the table.
abbrev content : Bytes
content = codes "subscribe_path=h1\nservers=10.0.0.1"

abbrev lines : List Line
lines =
    item (trimmed (codes "subscribe_path")) (trimmed (codes "h1\n"))
    ∷ item (trimmed (codes "servers")) (trimmed (codes "10.0.0.1"))
    ∷ []

content-Holds : Holds b'#' content lines
unfolding until all_space
content-Holds =
    ended (codes "subscribe_path=h1") refl (omega arith) (omega arith) (omega arith)
      (entry (codes "subscribe_path") (codes "h1\n") refl (omega arith) refl)
      (unended (cc) (omega arith) (omega arith) (omega arith)
        (entry (codes "servers") (codes "10.0.0.1") refl (omega arith) refl))

sync_config_load-Comes_example :
    Comes (ending lines false) (sync_config_load host b'#' (λ n. some content) true true [])
unfolding split_by cut_at equal_nocase equal leading skip_spaces accepts read_list
sync_config_load-Comes_example =
    sync_config_load-Comes host table_map-IsReadyMap list_set-IsReadySet (λ n. refl) b'#'
      (λ n. some content) [] content lines (omega arith) refl content-Holds
