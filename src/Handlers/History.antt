-- ===== src/Handlers/History.antt =====
-- upstream/lcm/lcm.c: the lists of subscriptions after any calls since the context was made.
use conftron.Base.{ℕ, ◌≡◌, Bool, Option, none, List, []}
use conftron.Handlers.{Glib, Lcm, lcm_subscribe, lcm_unsubscribe, lcm_get_handlers}
use conftron.Handlers.Inv.{count, Laws, expected, IsConsistent, lcm_get_handlers-IsConsistent}
use conftron.Handlers.Inv.Subscribe.{lcm_subscribe-IsConsistent}
use conftron.Handlers.Inv.Unsubscribe.{lcm_unsubscribe-IsConsistent}

module _ (glib : Glib) where
  open glib use {items, Pattern, lookup}

  abbrev Lists : Type 0
  Lists = Lcm glib.Arr glib.Table Pattern

  -- A context that lcm_create made, and what becomes of it. A new subscription is none that is listed.
  pub data Reachable : Lists → Type 0 where
    created :
        (lcm : Lists)
        → items lcm.handlers_all ≡ []
        → ((channel : List ℕ) → lookup lcm.handlers_map channel ≡ none)
        → Reachable lcm
    subscribes :
        (lcm : Lists) (h : ℕ) (provider_subscribed : Bool) (compiled : Option Pattern)
        → count h (items lcm.handlers_all) ≡ 0
        → Reachable lcm
        → Reachable (lcm_subscribe glib lcm h provider_subscribed compiled).1
    unsubscribes : (lcm : Lists) (h : ℕ) → Reachable lcm → Reachable (lcm_unsubscribe glib lcm h).1
    gets_handlers :
        (lcm : Lists) (channel : List ℕ)
        → Reachable lcm
        → Reachable (lcm_get_handlers glib lcm channel).1

  Reachable-IsConsistent : Laws glib → (lcm : Lists) → Reachable lcm → IsConsistent glib lcm
  unfolding IsConsistent
  Reachable-IsConsistent laws lcm (created l all none_listed) =
      λ channel handlers h found. absurd (cc (found, none_listed channel))
  Reachable-IsConsistent laws lcm (subscribes l h b compiled fresh r) =
      lcm_subscribe-IsConsistent glib laws l (Reachable-IsConsistent laws l r) h b compiled fresh
  Reachable-IsConsistent laws lcm (unsubscribes l h r) =
      lcm_unsubscribe-IsConsistent glib laws l (Reachable-IsConsistent laws l r) h
  Reachable-IsConsistent laws lcm (gets_handlers l channel r) =
      (lcm_get_handlers-IsConsistent glib laws l (Reachable-IsConsistent laws l r) channel).0

  -- After any calls of lcm_subscribe, lcm_unsubscribe and lcm_get_handlers since the context was made,
  -- whether they succeed or not, a subscription being new when it is subscribed, the lists of the
  -- channels are consistent with the list of all subscriptions; and lcm_get_handlers, also for a channel
  -- that was asked for before, gives each subscription whose pattern matches the channel as often as it
  -- stands in the list of all, and no other.
  pub Reachable-lcm_get_handlers :
      Laws glib
      → (lcm : Lists) (channel : List ℕ) → Reachable lcm
      → IsConsistent glib lcm
        × ((h : ℕ)
            → count h (items (lcm_get_handlers glib lcm channel).0) ≡ expected glib lcm channel h)
  Reachable-lcm_get_handlers laws lcm channel r =
      let ok = Reachable-IsConsistent laws lcm r in
      (ok, (lcm_get_handlers-IsConsistent glib laws lcm ok channel).1)
