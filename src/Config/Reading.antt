-- ===== src/Config/Reading.antt =====
-- `subscribe_map_handler` on every text, against the reference parser.
use mathlib.Core.Option
use mathlib.Core.Path.{subst}
use sync_agent.Base.{
  ℕ, ◌≡◌, ◌≢◌, ◌∙◌, sym, ap, refl, none, some, Option, List, [], ◌∷◌, ◌++◌, arith, ◌==◌, Bytes,
  Bool-cases, inl, inr, append-nil,
}
use sync_agent.Text.Scan.{Without}
use sync_agent.Config.Sets.{joined, Plain}
use sync_agent.Config.Parts.{split_by, joined-split_by, parts-Without, parts_keep}
use sync_agent.Config.Entries.{Entry, entry_text, listing, IsPlain}
use sync_agent.Config.Listing.{AllPlain}
use sync_agent.Config.Served.{
  last_text, with_last, AtEnd, subscribe_map_handler_lem, handler_faults,
}
use sync_agent.Config.Reference.{cut_at, entry_of, read_entries, read_list}
use sync_agent.Config.Lists.{
  SetOps, IsReadySet, MapOps, IsReadyMap, Subscriptions, subscribe_map_handler,
}
use sync_agent.Config.Subscribe.{IsSound}
use sync_agent.Config.Subscribed.{subscribed}
use sync_agent.Config.Listing.{wanted}
use sync_agent.Config.Served.{subscribe_map_handler_lem, handler_faults}

-- What `cut_at` gives.
Cut : ℕ → Bytes → Option (Bytes × Bytes) → Type 0
Cut c text none = Without c text
Cut c text (some (before, behind)) = (text ≡ before ++ c ∷ behind) × Without c before

cons-Cut :
    (c x : ℕ) (text : Bytes) (o : Option (Bytes × Bytes))
    → x ≢ c
    → Cut c text o
    → Cut c (x ∷ text) (Option.map (λ r. (x ∷ r.0, r.1)) o)
unfolding Cut
cons-Cut c x text none n h = (n, h)
cons-Cut c x text (some (before, behind)) n h = (ap (λ t. x ∷ t) h.0, (n, h.1))

cut_at-Cut : (c : ℕ) (text : Bytes) → Cut c text (cut_at c text)
unfolding cut_at Cut
cut_at-Cut c [] = tt
cut_at-Cut c (x ∷ xs) = elim (Bool-cases (x == c)) [
  | inl e ↦ let same : x ≡ c = ground (arith, e) in rw (e, cut_at) (ap (λ y. y ∷ xs) same, tt)
  | inr n ↦ rw (n, cut_at) (cons-Cut c x xs (cut_at c xs) (ground (arith, n)) (cut_at-Cut c xs))
]

append-Without : (c : ℕ) (a b : Bytes) → Without c (a ++ b) → Without c a × Without c b
append-Without c [] b h = (tt, h)
append-Without c (x ∷ a) b h = let (l, r) = append-Without c a b h.1 in ((h.0, l), r)

-- What `entry_of` gives for a text without commas.
Entered : Bytes → Option Entry → Type 0
Entered text none = Without b':' text
Entered text (some e) = (text ≡ entry_text e) × IsPlain e

entered :
    (text : Bytes) (o : Option (Bytes × Bytes))
    → cut_at b':' text ≡ o
    → Cut b':' text o
    → Without b',' text
    → Entered text (entry_of text)
unfolding Entered Cut entry_of
entered text none e cut w = rw (e, entry_of) cut
entered text (some (host, path_list)) e cut w =
    let (in_host, behind) =
      append-Without b',' host (b':' ∷ path_list) (subst (Without b',') cut.0 w) in
    rw (e, entry_of)
      (
        cut.0 ∙ ap (λ t. host ++ b':' ∷ t) (sym (joined-split_by b'|' path_list)),
        record {
          host_colon = cut.1;
          host_comma = in_host;
          path_bar = parts-Without b'|' path_list;
          path_comma = parts_keep b'|' b',' path_list behind.1;
        },
      )

entry_of-Entered : (text : Bytes) → Without b',' text → Entered text (entry_of text)
entry_of-Entered text w = entered text (cut_at b':' text) refl (cut_at-Cut b':' text) w

-- What `read_list` says of a text: entries as `subscribe_map_handler` needs them, with a comma behind the
-- last or not, or an entry without a colon behind such entries.
ReadsTo : Bytes → Option (List Entry) → Type 0
ReadsTo text none =
    (es : List Entry) × (bad : Bytes) × (tail : Bytes) × AllPlain es
    × (bad ++ tail ≢ [])
    × Without b',' bad
    × Without b':' bad
    × AtEnd tail
    × (text ≡ listing es (bad ++ tail))
ReadsTo text (some fs) =
    (es : List Entry) × (o : Option Entry) × (with_last es o ≡ fs)
    × AllPlain fs
    × (text ≡ listing es (last_text o))

cons-ne : (x : ℕ) (a b : Bytes) → (x ∷ a) ++ b ≢ []
cons-ne x a b e = cc

comma-ne : (p t : Bytes) → p ++ b',' ∷ t ≢ []
comma-ne [] t e = cc
comma-ne (x ∷ p) t e = cc

with_last-cons :
    (e : Entry) (es : List Entry) (o : Option Entry) → with_last (e ∷ es) o ≡ e ∷ with_last es o
with_last-cons e es none = refl
with_last-cons e es (some f) = refl

last_reads :
    (x : ℕ) (xs : Bytes) (o : Option Entry)
    → Without b',' (x ∷ xs)
    → Entered (x ∷ xs) o
    → ReadsTo (x ∷ xs) (Option.map (λ e. e ∷ []) o)
unfolding ReadsTo Entered
last_reads x xs none w h =
    ([], x ∷ xs, [], tt, cons-ne x xs [], w, h, tt, sym (append-nil (x ∷ xs)))
last_reads x xs (some e) w h = ([], some e, refl, (h.1, tt), h.0)

more_reads :
    (p q : Bytes) (qs : List Bytes) (o : Option Entry) (rest : Option (List Entry))
    → Without b',' p
    → Entered p o
    → ReadsTo (joined q qs) rest
    → ReadsTo (joined p (q ∷ qs)) (elim o [ none ↦ none | some e ↦ Option.map (λ es. e ∷ es) rest ])
unfolding ReadsTo Entered
more_reads p q qs none rest w h r =
    ([], p, b',' ∷ joined q qs, tt, comma-ne p (joined q qs), w, h, refl, refl)
more_reads p q qs (some e) none w h (es, bad, tail, plain, n, c, d, at_end, same) = (
  e ∷ es,
  bad,
  tail,
  (h.1, plain),
  n,
  c,
  d,
  at_end,
  ap (λ t. t ++ b',' ∷ joined q qs) h.0 ∙ ap (λ t. entry_text e ++ b',' ∷ t) same,
)
more_reads p q qs (some e) (some fs) w h (es, o, listed, plain, same) = (
  e ∷ es,
  o,
  with_last-cons e es o ∙ ap (λ gs. e ∷ gs) listed,
  (h.1, plain),
  ap (λ t. t ++ b',' ∷ joined q qs) h.0 ∙ ap (λ t. entry_text e ++ b',' ∷ t) same,
)

read_entries-ReadsTo :
    (p : Bytes) (ps : List Bytes) → Plain (p ∷ ps) → ReadsTo (joined p ps) (read_entries p ps)
unfolding read_entries ReadsTo
read_entries-ReadsTo [] [] h = ([], none, refl, tt, refl)
read_entries-ReadsTo (x ∷ xs) [] h =
    last_reads x xs (entry_of (x ∷ xs)) h.0 (entry_of-Entered (x ∷ xs) h.0)
read_entries-ReadsTo [] (q ∷ qs) h =
    more_reads [] q qs (entry_of []) (read_entries q qs) h.0 (entry_of-Entered [] h.0)
      (read_entries-ReadsTo q qs h.1)
read_entries-ReadsTo (x ∷ xs) (q ∷ qs) h =
    more_reads (x ∷ xs) q qs (entry_of (x ∷ xs)) (read_entries q qs) h.0
      (entry_of-Entered (x ∷ xs) h.0) (read_entries-ReadsTo q qs h.1)

read_list-ReadsTo : (text : Bytes) → ReadsTo text (read_list text)
unfolding read_list
read_list-ReadsTo text =
    subst (λ t. ReadsTo t (read_list text)) (joined-split_by b',' text)
      (read_entries-ReadsTo (split_by b',' text).0 (split_by b',' text).1 (parts-Without b',' text))

module _ {M S : Type 0} (maps : MapOps M) (ops : SetOps S) where
  -- What the reference parser's result means for the result of `subscribe_map_handler`.
  abbrev pub Follows : Option (List Entry) → Option (Subscriptions M S) → Type 0
  Follows none r = r ≡ none
  Follows (some es) r =
      (subs : Subscriptions M S) × (r ≡ some subs)
      × IsSound maps ops subs
      × ((host path : Bytes) → subscribed maps ops subs host path ≡ wanted es host path)

  by_reading :
      (text : Bytes) (o : Option (List Entry))
      → IsReadyMap maps
      → IsReadySet ops
      → ReadsTo text o
      → Follows o (subscribe_map_handler maps ops text)
  unfolding ReadsTo
  by_reading text none map_ok set_ok (es, bad, tail, plain, n, c, d, at_end, same) =
      ap (subscribe_map_handler maps ops) same
      ∙ handler_faults maps ops map_ok set_ok es bad tail plain n c d at_end
  by_reading text (some fs) map_ok set_ok (es, o, listed, plain, same) =
      let (subs, made, sound, served) =
        subscribe_map_handler_lem maps ops map_ok set_ok es o (subst AllPlain (sym listed) plain) in
      (
        subs,
        ap (subscribe_map_handler maps ops) same ∙ made,
        sound,
        λ host path. served host path ∙ ap (λ gs. wanted gs host path) listed,
      )

  -- On every text, with memory for every host and set and where the byte behind each array of
  -- `subscribe_map_handler`, which it stores a NUL in, can be written: if one of the entries of the text,
  -- which end at the commas, has no colon, `subscribe_map_handler` faults; but an empty one behind the last comma is none. Else it ends without a fault, and its map leads from a
  -- host to a set with a path exactly if some entry has the host before its first colon and the path
  -- among the parts between the bars behind it. Every pointer in the map is to a set, and two hosts never
  -- share one.
  pub subscribe_map_handler-Follows :
      (text : Bytes)
      → IsReadyMap maps
      → IsReadySet ops
      → Follows (read_list text) (subscribe_map_handler maps ops text)
  subscribe_map_handler-Follows text map_ok set_ok =
      by_reading text (read_list text) map_ok set_ok (read_list-ReadsTo text)
