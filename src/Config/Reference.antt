-- ===== src/Config/Reference.antt =====
-- A reference parser for lists of subscriptions: the text is cut at its commas, an entry at its first
-- colon, its paths at the bars.
use mathlib.Core.Option
use sync_agent.Base.{ℕ, none, some, Option, List, [], ◌∷◌, ◌==◌, Bytes, if◌then◌else◌}
use sync_agent.Config.Parts.{split_by}
use sync_agent.Config.Entries.{Entry}

-- The text before and behind the first place of the byte.
unfoldable pub cut_at : ℕ → Bytes → Option (Bytes × Bytes)
cut_at c [] = none
cut_at c (x ∷ xs) =
    let rest = cut_at c xs in
    if x == c then some ([], xs) else Option.map (λ r. (x ∷ r.0, r.1)) rest

-- An entry; `none` is a text without a colon.
unfoldable pub entry_of : Bytes → Option Entry
entry_of text = elim (cut_at b':' text) [
  | none ↦ none
  | some (host, path_list) ↦ some (record {
    host = host;
    first = (split_by b'|' path_list).0;
    others = (split_by b'|' path_list).1;
  })
]

-- The entries of the parts of a list; an empty last part is none.
unfoldable pub read_entries : Bytes → List Bytes → Option (List Entry)
unfolding entry_of
read_entries [] [] = some []
read_entries (x ∷ xs) [] = Option.map (λ e. e ∷ []) (entry_of (x ∷ xs))
read_entries p (q ∷ ps) =
    let rest = read_entries q ps in
    elim (entry_of p) [ none ↦ none | some e ↦ Option.map (λ es. e ∷ es) rest ]

-- The entries of a text; `none` if one of them has no colon.
unfoldable pub read_list : Bytes → Option (List Entry)
unfolding read_entries
read_list text = read_entries (split_by b',' text).0 (split_by b',' text).1
