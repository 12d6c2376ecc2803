-- ===== src/Config/Served.antt =====
-- `subscribe_map_handler` on lists of entries, with a comma behind the last or not, and on an entry
-- without a colon.
use sync_agent.Base.{
  ℕ, suc, ◌≡◌, ◌≢◌, ◌∙◌, sym, ap, refl, Bool, true, false, none, some, Option, List, [], ◌∷◌, ◌++◌,
  arith, length, ltb, ◌||◌, Bytes, append-nil,
}
use sync_agent.Text.Scan.{Without}
use sync_agent.Config.Lists.{
  SetOps, IsReadySet, MapOps, IsReadyMap, Subscriptions, index_of, subscribe_entry, subscribe_loop,
  subscribe_map_handler,
}
use sync_agent.Config.Sets.{index_of-Without, index_of-append}
use sync_agent.Config.Entries.{
  Entry, path_text, entry_text, listing, NoHead, Beyond, index_of-NoHead,
}
use sync_agent.Config.Subscribe.{IsSound, put_entry, put_all, subscribe_entry_lem}
use sync_agent.Config.Subscribed.{subscribed}
use sync_agent.Config.Listing.{
  wanted, AllPlain, entry_text-Without, loop-last, loop-more, start, start-subscribed,
  start-IsSound, put_all-Put, handler-listing,
}

-- A last entry with no comma behind it, or none.
abbrev pub last_text : Option Entry → Bytes
last_text none = []
last_text (some e) = entry_text e

abbrev pub with_last : List Entry → Option Entry → List Entry
with_last es none = es
with_last es (some e) = es ++ e ∷ []

AllPlain-append : (es fs : List Entry) → AllPlain (es ++ fs) → AllPlain es × AllPlain fs
AllPlain-append [] fs h = (tt, h)
AllPlain-append (e ∷ es) fs h = let (l, r) = AllPlain-append es fs h.1 in ((h.0, l), r)

append-ne-nil : (a : Bytes) (x : ℕ) (b : Bytes) → a ++ x ∷ b ≢ []
append-ne-nil [] x b e = cc
append-ne-nil (y ∷ a) x b e = cc

append-ne : (a b : Bytes) → a ≢ [] → a ++ b ≢ []
append-ne [] b n e = n refl
append-ne (x ∷ a) b n e = cc

or_false : (a : Bool) → (a || false) ≡ a
or_false true = refl
or_false false = refl

-- The end of the text, or a comma.
abbrev pub AtEnd : Bytes → Type 0
AtEnd [] = Unit
AtEnd (x ∷ xs) = x ≡ b','

NoHead-colon : (t : Bytes) → AtEnd t → NoHead b':' t
NoHead-colon [] h = tt
NoHead-colon (x ∷ t) h = omega arith

module _ {M S : Type 0} (maps : MapOps M) (ops : SetOps S) where
  put_all-append :
      (es : List Entry) (e : Entry) (subs : Subscriptions M S)
      → put_all maps ops (es ++ e ∷ []) subs ≡ put_entry maps ops e (put_all maps ops es subs)
  unfolding put_all
  put_all-append [] e subs = refl
  put_all-append (f ∷ es) e subs = put_all-append es e (put_entry maps ops f subs)

  -- Without a colon before its end an entry faults.
  entry_faults :
      (text : Bytes) (n : ℕ) (subs : Subscriptions M S) (o : Option ℕ)
      → index_of b':' text ≡ o
      → Beyond n o
      → subscribe_entry maps ops text n subs ≡ none
  entry_faults text n subs none e b = unfold subscribe_entry in rw (e, subscribe_entry)
  entry_faults text n subs (some k) e b =
      let out : ltb n k ≡ true = ground arith in
      unfold subscribe_entry in rw (e, subscribe_entry, out)

  loop_faults :
      (fuel : ℕ) (bad tail : Bytes) (subs : Subscriptions M S)
      → bad ++ tail ≢ []
      → Without b',' bad
      → Without b':' bad
      → AtEnd tail
      → subscribe_loop maps ops (suc fuel) (bad ++ tail) subs ≡ none
  loop_faults fuel bad [] subs n w c h =
      let same = append-nil bad in
      ap (λ t. subscribe_loop maps ops (suc fuel) t subs) same
      ∙ loop-last maps ops fuel bad subs (λ e. n (same ∙ e)) (index_of-Without b',' bad w)
      ∙ entry_faults bad (length bad) subs none (index_of-Without b':' bad c) tt
  loop_faults fuel bad (x ∷ tail) subs n w c h =
      let o = index_of b':' (bad ++ x ∷ tail) in
      loop-more maps ops fuel (length bad) (bad ++ x ∷ tail) subs
        (ap (λ y. index_of b',' (bad ++ y ∷ tail)) h ∙ index_of-append b',' bad tail w)
      ∙ rw (
          entry_faults (bad ++ x ∷ tail) (length bad) subs o refl
            (index_of-NoHead b':' bad (x ∷ tail) c (NoHead-colon (x ∷ tail) h)))

module _ {M S : Type 0} (maps : MapOps M) (ops : SetOps S) (map_ok : IsReadyMap maps)
    (set_ok : IsReadySet ops) where
  handler-last :
      (es : List Entry) (o : Option Entry)
      → AllPlain (with_last es o)
      → subscribe_map_handler maps ops (listing es (last_text o))
        ≡ some (put_all maps ops (with_last es o) (start maps ops map_ok set_ok))
  handler-last es none h =
      let (fuel, e) = handler-listing maps ops map_ok set_ok es [] h in
      e ∙ unfold subscribe_loop in refl
  handler-last es (some e) h =
      let (plain, last) = AllPlain-append es (e ∷ []) h in
      let (fuel, f) = handler-listing maps ops map_ok set_ok es (entry_text e) plain in
      let subs = put_all maps ops es (start maps ops map_ok set_ok) in
      let sound =
        (put_all-Put maps ops map_ok set_ok es (start maps ops map_ok set_ok)
          (start-IsSound maps ops map_ok set_ok)).0 in
      let text = entry_text e in
      f
      ∙ loop-last maps ops fuel text subs (append-ne-nil e.host b':' (path_text e))
          (index_of-Without b',' text (entry_text-Without e last.0))
      ∙ ap (λ t. subscribe_entry maps ops t (length text) subs) (sym (append-nil text))
      ∙ subscribe_entry_lem maps ops map_ok e [] subs last.0 tt sound
      ∙ ap some (sym (put_all-append maps ops es e (start maps ops map_ok set_ok)))

  -- On the text of entries whose hosts have no colon or comma and whose paths no bar or comma,
  -- separated by commas, with a comma behind the last or not: `subscribe_map_handler` ends without a
  -- fault, and its map leads from a host to a set with a path exactly if some entry of that host names
  -- the path. Every pointer in the map is to a set, and two hosts never share one.
  pub subscribe_map_handler_lem :
      (es : List Entry) (o : Option Entry)
      → AllPlain (with_last es o)
      → (subs : Subscriptions M S) × (subscribe_map_handler maps ops (listing es (last_text o))
          ≡ some subs)
        × IsSound maps ops subs
        × ((host path : Bytes)
            → subscribed maps ops subs host path ≡ wanted (with_last es o) host path)
  subscribe_map_handler_lem es o h =
      let none_yet = start maps ops map_ok set_ok in
      let (sound, served) =
        put_all-Put maps ops map_ok set_ok (with_last es o) none_yet
          (start-IsSound maps ops map_ok set_ok) in
      (
        put_all maps ops (with_last es o) none_yet,
        handler-last es o h,
        sound,
        λ host path.
            served host path
            ∙ ap (λ b. wanted (with_last es o) host path || b)
                (start-subscribed maps ops map_ok set_ok host path)
            ∙ or_false (wanted (with_last es o) host path),
      )

  -- Behind any entries as above, an entry without a colon, at the end or with a comma behind it.
  pub handler_faults :
      (es : List Entry) (bad tail : Bytes)
      → AllPlain es
      → bad ++ tail ≢ []
      → Without b',' bad
      → Without b':' bad
      → AtEnd tail
      → subscribe_map_handler maps ops (listing es (bad ++ tail)) ≡ none
  handler_faults es bad tail h n w c e =
      let (fuel, f) = handler-listing maps ops map_ok set_ok es (bad ++ tail) h in
      f
      ∙ loop_faults maps ops fuel bad tail (put_all maps ops es (start maps ops map_ok set_ok)) n w
          c e

  -- Behind any entries as above, an entry that is not empty and has no colon, at the end or with a comma
  -- behind it, makes `subscribe_map_handler` fault: the length of the host or of the path is negative.
  pub subscribe_map_handler_faults :
      (es : List Entry) (bad tail : Bytes)
      → AllPlain es
      → bad ≢ []
      → Without b',' bad
      → Without b':' bad
      → AtEnd tail
      → subscribe_map_handler maps ops (listing es (bad ++ tail)) ≡ none
  subscribe_map_handler_faults es bad tail h n w c e =
      handler_faults es bad tail h (append-ne bad tail n) w c e
