-- ===== src/Config/Order.antt =====
-- The order of the entries of a list of subscriptions does not matter.
use mathlib.Core.List.{Perm, Permᴰ}
use mathlib.Core.Logic.{∥∥₁_elim}
use mathlib.Core.Path.{subst}
use sync_agent.Base.{
  ◌≡◌, ◌∙◌, sym, ap, refl, Bool, true, false, some, List, Bytes, ◌||◌, ◌&&◌, equal,
}
use sync_agent.Config.Lists.{
  SetOps, IsReadySet, MapOps, IsReadyMap, Subscriptions, subscribe_map_handler,
}
use sync_agent.Config.Entries.{Entry, paths}
use sync_agent.Config.Sets.{member}
use sync_agent.Config.Subscribed.{subscribed}
use sync_agent.Config.Listing.{wanted}
use sync_agent.Config.Reference.{read_list}
use sync_agent.Config.Reading.{Follows, subscribe_map_handler-Follows}

either : (a b c : Bool) → (a || (b || c)) ≡ (b || (a || c))
either true true c = refl
either true false c = refl
either false true c = refl
either false false c = refl

names : Entry → Bytes → Bytes → Bool
names e host path = equal host e.host && member path (paths e)

wanted_perm :
    {es fs : List Entry} (host path : Bytes)
    → Permᴰ es fs
    → wanted es host path ≡ wanted fs host path
unfolding wanted names
wanted_perm host path Permᴰ.nil = refl
wanted_perm host path (Permᴰ.cons {a = e} {b = f} {l₁ = es} {l₂ = fs} same p) =
    ap (λ b. names e host path || b) (wanted_perm host path p)
    ∙ ap (λ g. names g host path || wanted fs host path) same
wanted_perm host path (Permᴰ.swap {a = e} {b = f} {a' = g} {b' = k} {l = es} same same') =
    either (names e host path) (names f host path) (wanted es host path)
    ∙ ap (λ x. names x host path || (names e host path || wanted es host path)) same'
    ∙ ap (λ x. names g host path || (names x host path || wanted es host path)) same
wanted_perm host path (Permᴰ.trans p q) = wanted_perm host path p ∙ wanted_perm host path q

module _ {M S : Type 0} (maps : MapOps M) (ops : SetOps S) where
  -- On two texts whose entries all have colons and are the same up to their order, with memory for every
  -- host and set and where the byte behind each array of `subscribe_map_handler` can be written,
  -- `subscribe_map_handler` ends without a fault, and both maps lead from the same hosts to sets with the
  -- same paths.
  pub subscribe_map_handler_order :
      (text text' : Bytes) {es fs : List Entry}
      → IsReadyMap maps
      → IsReadySet ops
      → read_list text ≡ some es
      → read_list text' ≡ some fs
      → Perm es fs
      → (subs : Subscriptions M S) × (subs' : Subscriptions M S) × (subscribe_map_handler maps ops
            text
          ≡ some subs)
        × (subscribe_map_handler maps ops text' ≡ some subs')
        × ((host path : Bytes)
            → subscribed maps ops subs host path ≡ subscribed maps ops subs' host path)
  subscribe_map_handler_order text text' map_ok set_ok r r' p =
      let (subs, made, sound, served) =
        subst (λ o. Follows maps ops o (subscribe_map_handler maps ops text)) r
          (subscribe_map_handler-Follows maps ops text map_ok set_ok) in
      let (subs', made', sound', served') =
        subst (λ o. Follows maps ops o (subscribe_map_handler maps ops text')) r'
          (subscribe_map_handler-Follows maps ops text' map_ok set_ok) in
      (
        subs,
        subs',
        made,
        made',
        λ host path.
            served host path
            ∙ ∥∥₁_elim p (hlevel) (wanted_perm host path)
            ∙ sym (served' host path),
      )
