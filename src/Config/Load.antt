-- ===== src/Config/Load.antt =====
-- `sync_config_load` as the handler applied to the items of the file.
use sync_agent.Base.{
  ℕ, ◌≡◌, ◌≢◌, ◌∙◌, ap, refl, Bool, true, false, none, some, Option, List, [], ◌∷◌, Bytes,
  if◌then◌else◌,
}
use sync_agent.Property.{Line, skipped, item, Callback}
use sync_agent.Property.Loop.{Holds, run_items, property_read_lem}
use sync_agent.Config.{
  Config, Host, zeroed, sync_config_item_handler, handler, loaded, sync_config_load,
}

module _ {T : Type 0} (process : Callback T) where
  run-stops :
      (key value : Bytes) (ls : List Line) (result : Bool) (s s' : T)
      → process key value s ≡ (false, s')
      → run_items process (item key value ∷ ls) result s ≡ (false, s')
  unfolding run_items
  run-stops key value ls result s s' e =
      let stop : (process key value s).0 ≡ false = ap (λ (p : Bool × T). p.0) e in
      rw (stop, run_items) (ap (λ (p : Bool × T). (false, p.1)) e)

  run-goes :
      (key value : Bytes) (ls : List Line) (result : Bool) (s s' : T)
      → process key value s ≡ (true, s')
      → run_items process (item key value ∷ ls) result s ≡ run_items process ls true s'
  unfolding run_items
  run-goes key value ls result s s' e =
      let go : (process key value s).0 ≡ true = ap (λ (p : Bool × T). p.0) e in
      rw (go, run_items) (ap (λ (p : Bool × T). run_items process ls true p.1) e)

module _ {M S : Type 0} (host : Host M S) where
  -- The configuration that the items of a file give: `none` is a fault, `some none` is NULL.
  unfoldable pub configured : List Line → Bool → Config M S → Option (Option (Config M S))
  configured [] result config = some (if result then some config else none)
  configured (skipped ∷ ls) result config = configured ls result config
  configured (item key value ∷ ls) result config =
      elim (sync_config_item_handler host key value config) [
        | none ↦ none
        | some (true, config') ↦ configured ls true config'
        | some (false, config') ↦ some none
      ]

  -- The callback's result, by the handler's.
  abbrev reply : Option (Bool × Config M S) → Bool × Option (Config M S)
  reply none = (false, none)
  reply (some (more, config')) = (more, some config')

  handler-reply :
      (key value : Bytes) (config : Config M S) (r : Option (Bool × Config M S))
      → sync_config_item_handler host key value config ≡ r
      → handler host key value (some config) ≡ reply r
  unfolding handler
  handler-reply key value config none e = rw (e, handler)
  handler-reply key value config (some (more, config')) e = rw (e, handler)

  -- One more item, given what the rest comes to.
  handled-item :
      (key value : Bytes) (ls : List Line) (result : Bool) (config : Config M S)
      (r : Option (Bool × Config M S))
      → sync_config_item_handler host key value config ≡ r
      → ((config' : Config M S)
          → loaded host (some (run_items (handler host) ls true (some config')))
            ≡ configured ls true config')
      → loaded host (some (run_items (handler host) (item key value ∷ ls) result (some config)))
        ≡ configured (item key value ∷ ls) result config
  unfolding configured loaded
  handled-item key value ls result config none e rest =
      ap (λ x. loaded host (some x))
        (run-stops (handler host) key value ls result (some config) none
          (handler-reply key value config none e))
      ∙ rw (e, configured)
  handled-item key value ls result config (some (true, config')) e rest =
      ap (λ x. loaded host (some x))
        (run-goes (handler host) key value ls result (some config) (some config')
          (handler-reply key value config (some (true, config')) e))
      ∙ rest config'
      ∙ rw (e, configured)
  handled-item key value ls result config (some (false, config')) e rest =
      ap (λ x. loaded host (some x))
        (run-stops (handler host) key value ls result (some config) (some config')
          (handler-reply key value config (some (false, config')) e))
      ∙ rw (e, configured)

  handled :
      (ls : List Line) (result : Bool) (config : Config M S)
      → loaded host (some (run_items (handler host) ls result (some config)))
        ≡ configured ls result config
  unfolding run_items configured loaded
  handled [] true config = refl
  handled [] false config = refl
  handled (skipped ∷ ls) result config = handled ls result config
  handled (item key value ∷ ls) result config =
      handled-item key value ls result config (sync_config_item_handler host key value config) refl
        (λ config'. handled ls true config')

  -- On a file that can be opened and whose lines are blank, comments or items, with a comment character
  -- and memory for the configuration, `sync_config_load` hands the items to `sync_config_item_handler`
  -- in order, from a zeroed configuration. It returns the configuration that they make, and NULL if the
  -- handler rejects one, or if there is none; it faults only where the handler does.
  pub sync_config_load_lem :
      (c : ℕ) (fopen : Bytes → Option Bytes) (path content : Bytes) (ls : List Line)
      → c ≢ 0
      → fopen path ≡ some content
      → Holds c content ls
      → sync_config_load host c fopen true true path ≡ configured ls false zeroed
  unfolding sync_config_load
  sync_config_load_lem c fopen path content ls nz e h =
      ap (loaded host)
        (property_read_lem c fopen path content (some (handler host)) ls (some zeroed) nz e h)
      ∙ handled ls false zeroed
