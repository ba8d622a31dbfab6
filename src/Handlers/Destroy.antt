-- ===== src/Handlers/Destroy.antt =====
-- upstream/lcm/lcm.c: lcm_destroy, which takes the provider and the subscriptions with it.
use conftron.Base.{ℕ, true, false, Option, none, some, List, [], ◌∷◌}
use conftron.Handlers.{Glib, Lcm, Subscription, change}

module _ (glib : Glib) where
  open glib use {items, Pattern}

  -- lcm_handler_free; the flag is cleared before, so that its assertion holds.
  abbrev pub free_all : List ℕ → (ℕ → Subscription Pattern) → ℕ → Subscription Pattern
  free_all [] subscriptions = subscriptions
  free_all (h ∷ rest) subscriptions = free_all rest (
      change glib subscriptions h
        (record (subscriptions h) { callback_scheduled = false; freed = true }))

  abbrev pub destroy_provider :
      {Provider World : Type 0} → (Provider → World → World) → Option Provider → World → World
  destroy_provider destroy none w = w
  destroy_provider destroy (some provider) w = destroy provider w

  -- lcm_destroy: what is left of the subscriptions, and the world behind the provider.
  unfoldable pub lcm_destroy :
      {Provider World : Type 0}
      → (Provider → World → World)
      → Option Provider
      → Lcm glib.Arr glib.Table Pattern
      → World
      → (ℕ → Subscription Pattern) × World
  lcm_destroy destroy provider lcm w =
      (free_all (items lcm.handlers_all) lcm.subscriptions, destroy_provider destroy provider w)
