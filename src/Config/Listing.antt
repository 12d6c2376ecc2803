-- ===== src/Config/Listing.antt =====
-- `subscribe_map_handler` against what a list of entries asks for.
use mathlib.Core.Path.{subst}
use sync_agent.Base.{
  ℕ, suc, ◌+◌, ◌-◌, ◌≤◌, ◌≡◌, ◌≢◌, ◌∙◌, sym, ap, refl, Bool, true, false, none, some, Option, List,
  [], ◌∷◌, ◌++◌, arith, length, drop, ◌||◌, ◌&&◌, Bytes, equal, length-append, drop-length_add,
}
use sync_agent.Property.{◌>>=◌}
use sync_agent.Text.Scan.{Without}
use sync_agent.Config.Lists.{
  SetOps, IsReadySet, MapOps, IsReadyMap, Subscriptions, index_of, subscribe_entry, subscribe_loop,
  subscribe_map_handler,
}
use sync_agent.Config.Sets.{AllWithout, joined_by, member, index_of-append}
use sync_agent.Config.Entries.{Entry, paths, path_text, entry_text, listing, IsPlain}
use sync_agent.Config.Subscribe.{
  IsSound, filled, put_entry, put_all, set_for, path_set-find, subscribe_entry_lem,
}
use sync_agent.Config.Subscribed.{
  subscribed, grown-subscribed, grown-IsSound, kept-subscribed, kept-IsSound,
}

Without-append : (c : ℕ) (a b : Bytes) → Without c a → Without c b → Without c (a ++ b)
Without-append c [] b h k = k
Without-append c (x ∷ a) b h k = (h.0, Without-append c a b h.1 k)

Without-joined_by :
    (c d : ℕ) (p : Bytes) (ps : List Bytes)
    → d ≢ c
    → AllWithout c (p ∷ ps)
    → Without c (joined_by d p ps)
Without-joined_by c d p [] n h = h.0
Without-joined_by c d p (q ∷ ps) n h =
    Without-append c p (d ∷ joined_by d q ps) h.0 (n, Without-joined_by c d q ps n h.1)

pub entry_text-Without : (e : Entry) → IsPlain e → Without b',' (entry_text e)
entry_text-Without e h =
    Without-append b',' e.host (b':' ∷ path_text e) h.host_comma
      (omega arith, Without-joined_by b',' b'|' e.first e.others (omega arith) h.path_comma)

length-listing : (es : List Entry) (tail : Bytes) → length es ≤ length (listing es tail)
length-listing [] tail = omega arith
length-listing (e ∷ es) tail =
    omega (arith, length-listing es tail, length-append (entry_text e) (b',' ∷ listing es tail))

swap_or : (a b c : Bool) → (a || (b || c)) ≡ ((b || a) || c)
swap_or true true c = refl
swap_or true false c = refl
swap_or false true c = refl
swap_or false false c = refl

-- Some entry names the host and the path.
unfoldable pub wanted : List Entry → Bytes → Bytes → Bool
wanted [] host path = false
wanted (e ∷ es) host path = equal host e.host && member path (paths e) || wanted es host path

abbrev pub AllPlain : List Entry → Type 0
AllPlain [] = Unit
AllPlain (e ∷ es) = IsPlain e × AllPlain es

module _ {M S : Type 0} (maps : MapOps M) (ops : SetOps S) where
  pub loop-last :
      (fuel : ℕ) (t : Bytes) (subs : Subscriptions M S)
      → t ≢ []
      → index_of b',' t ≡ none
      → subscribe_loop maps ops (suc fuel) t subs ≡ subscribe_entry maps ops t (length t) subs
  loop-last fuel [] subs n e = absurd (n refl)
  loop-last fuel (x ∷ xs) subs n e = unfold subscribe_loop in rw (e, subscribe_loop)

  pub loop-more :
      (fuel k : ℕ) (t : Bytes) (subs : Subscriptions M S)
      → index_of b',' t ≡ some k
      → subscribe_loop maps ops (suc fuel) t subs
        ≡ (subscribe_entry maps ops t k subs >>= subscribe_loop maps ops fuel (drop (k + 1) t))
  loop-more fuel k [] subs e = unfold index_of in absurd (cc)
  loop-more fuel k (x ∷ xs) subs e = unfold subscribe_loop in rw (e, subscribe_loop)

module _ {M S : Type 0} (maps : MapOps M) (ops : SetOps S) (map_ok : IsReadyMap maps)
    (set_ok : IsReadySet ops) where
  -- What an entry makes of sound subscriptions.
  pub record Put (e : Entry) (subs after : Subscriptions M S) : Type 0 where
    pub sound : IsSound maps ops after
    pub served :
        (host path : Bytes)
        → subscribed maps ops after host path
          ≡ (equal host e.host && member path (paths e) || subscribed maps ops subs host path)

  Put-for :
      (e : Entry) (subs : Subscriptions M S) (o : Option ℕ)
      → IsSound maps ops subs
      → maps.hashmap_find e.host subs.map ≡ o
      → Put e subs (filled maps ops e (set_for maps ops subs o))
  Put-for e subs none v f = record {
    sound = grown-IsSound maps ops map_ok set_ok e subs v f;
    served = grown-subscribed maps ops map_ok set_ok e subs v f;
  }
  Put-for e subs (some p) v f = record {
    sound = kept-IsSound maps ops map_ok set_ok e subs v p f;
    served = kept-subscribed maps ops map_ok set_ok e subs v p f;
  }

  put_entry-Put :
      (e : Entry) (subs : Subscriptions M S)
      → IsSound maps ops subs
      → Put e subs (put_entry maps ops e subs)
  unfolding put_entry
  put_entry-Put e subs v =
      let o = maps.hashmap_find e.host subs.map in
      subst (λ found. Put e subs (filled maps ops e found))
        (sym (path_set-find maps ops e.host subs o refl)) (Put-for e subs o v refl)

  loop-entry :
      (e : Entry) (text : Bytes) (fuel : ℕ) (subs : Subscriptions M S)
      → IsPlain e
      → IsSound maps ops subs
      → subscribe_loop maps ops (suc fuel) (entry_text e ++ b',' ∷ text) subs
        ≡ subscribe_loop maps ops fuel text (put_entry maps ops e subs)
  loop-entry e text fuel subs h v =
      loop-more maps ops fuel (length (entry_text e)) (entry_text e ++ b',' ∷ text) subs
        (index_of-append b',' (entry_text e) text (entry_text-Without e h))
      ∙ rw (
        subscribe_entry_lem maps ops map_ok e (b',' ∷ text) subs h (omega arith) v,
        drop-length_add (entry_text e) (b',' ∷ text) 1,
      )

  -- The loop takes the entries in front of a text.
  loop-listing :
      (es : List Entry) (tail : Bytes) (fuel : ℕ) (subs : Subscriptions M S)
      → AllPlain es
      → IsSound maps ops subs
      → subscribe_loop maps ops (length es + fuel) (listing es tail) subs
        ≡ subscribe_loop maps ops fuel tail (put_all maps ops es subs)
  unfolding put_all
  loop-listing [] tail fuel subs h v = let e : 0 + fuel ≡ fuel = omega arith in rw e
  loop-listing (e ∷ es) tail fuel subs h v =
      let f : suc (length es) + fuel ≡ suc (length es + fuel) = omega arith in
      ap (λ n. subscribe_loop maps ops n (entry_text e ++ b',' ∷ listing es tail) subs) f
      ∙ loop-entry e (listing es tail) (length es + fuel) subs h.0 v
      ∙ loop-listing es tail fuel (put_entry maps ops e subs) h.1 (put_entry-Put e subs v).sound

  pub put_all-Put :
      (es : List Entry) (subs : Subscriptions M S)
      → IsSound maps ops subs
      → IsSound maps ops (put_all maps ops es subs)
        × ((host path : Bytes)
            → subscribed maps ops (put_all maps ops es subs) host path
              ≡ (wanted es host path || subscribed maps ops subs host path))
  unfolding put_all wanted
  put_all-Put [] subs v = (v, λ host path. refl)
  put_all-Put (e ∷ es) subs v =
      let put = put_entry-Put e subs v in
      let (sound, served) = put_all-Put es (put_entry maps ops e subs) put.sound in
      (
        sound,
        λ host path.
            served host path
            ∙ ap (λ b. wanted es host path || b) (put.served host path)
            ∙ swap_or (wanted es host path) (equal host e.host && member path (paths e))
                (subscribed maps ops subs host path),
      )

  -- No subscriptions yet.
  abbrev pub start : Subscriptions M S
  start = record { map = maps.hashmap_new; sets = [] }

  not_new : (k : Bytes) (p : ℕ) → maps.hashmap_find k maps.hashmap_new ≢ some p
  not_new k p f = cc (map_ok.hash_map.find-new k)

  pub start-IsSound : IsSound maps ops start
  start-IsSound = record {
    within = λ k p f. absurd (not_new k p f);
    apart = λ j k p f g. absurd (not_new j p f);
  }

  pub start-subscribed : (host path : Bytes) → subscribed maps ops start host path ≡ false
  start-subscribed host path = rw (map_ok.hash_map.find-new host)

  -- The fuel of the handler is enough for the entries, and more than the rest needs.
  pub handler-listing :
      (es : List Entry) (tail : Bytes)
      → AllPlain es
      → (fuel : ℕ) × (subscribe_map_handler maps ops (listing es tail)
          ≡ subscribe_loop maps ops (suc fuel) tail (put_all maps ops es start))
  unfolding subscribe_map_handler
  handler-listing es tail h =
      let n = length (listing es tail) - length es in
      let f : suc (length (listing es tail)) ≡ length es + suc n =
        omega (arith, length-listing es tail) in
      (
        n,
        ap (λ m. subscribe_loop maps ops m (listing es tail) start) f
            ∙ loop-listing es tail (suc n) start h start-IsSound,
      )
