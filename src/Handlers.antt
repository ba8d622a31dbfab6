-- ===== src/Handlers.antt =====
-- upstream/lcm/lcm.c: who has subscribed to what. A subscription is its address, a number; GPtrArray and
-- GHashTable are GLib's, records of functions, and so is the matching of a channel with a pattern.
pub mod Inv
pub mod Dispatch
pub mod Calls
pub mod Marks
pub mod Dispatched
pub mod History
pub mod Create
pub mod Url
pub mod Open
pub mod Destroy
mod Runs
pub mod UrlRuns
use conftron.Base.{
  ℕ, Bool, true, false, not, Option, none, some, List, [], ◌∷◌, if◌then◌else◌, ◌==◌, ℤ, pos,
  minus_one,
}

-- GPtrArray of subscriptions, and the table from channels to such arrays. `foreach` is
-- g_hash_table_foreach with a callback that changes the arrays.
pub record Glib : Type 1 where
  pub Arr : Type 0
  pub empty : Arr
  pub items : Arr → List ℕ
  pub add : Arr → ℕ → Arr
  -- g_ptr_array_remove: whether it was there, and the array without its first occurrence.
  pub remove : Arr → ℕ → Bool × Arr
  pub remove_fast : Arr → ℕ → Arr
  pub Table : Type 0
  pub lookup : Table → List ℕ → Option Arr
  pub insert : Table → List ℕ → Arr → Table
  pub foreach : (List ℕ → Arr → Arr) → Table → Table
  pub Pattern : Type 0
  pub regex_match : Pattern → List ℕ → Bool

-- lcm_subscription_t; `freed` is set by lcm_handler_free.
pub record Subscription (Pattern : Type 0) : Type 0 where
  pub regex : Pattern
  pub callback_scheduled : Bool
  pub marked_for_deletion : Bool
  pub freed : Bool

-- struct _lcm_t, without the provider
pub record Lcm (Arr : Type 0) (Table : Type 0) (Pattern : Type 0) : Type 0 where
  pub handlers_all : Arr
  pub handlers_map : Table
  pub subscriptions : ℕ → Subscription Pattern

module _ (glib : Glib) where
  open glib use {
    Arr, empty, items, add, remove, remove_fast, Table, lookup, insert, foreach, Pattern,
    regex_match,
  }

  abbrev pub change :
      (ℕ → Subscription Pattern) → ℕ → Subscription Pattern → ℕ → Subscription Pattern
  change subscriptions h s k = if k == h then s else subscriptions k

  -- is_handler_subscriber
  abbrev pub is_handler_subscriber : Lcm Arr Table Pattern → ℕ → List ℕ → Bool
  is_handler_subscriber lcm h channel_name = regex_match (lcm.subscriptions h).regex channel_name

  -- lcm_subscribe, with the address that calloc gives, the result of the provider, and the pattern
  -- that the channel is compiled to, if it is one. NULL is `none`.
  unfoldable pub lcm_subscribe :
      Lcm Arr Table Pattern → ℕ → Bool → Option Pattern → Option ℕ × Lcm Arr Table Pattern
  lcm_subscribe lcm h provider_subscribed none = (none, lcm)
  lcm_subscribe lcm h provider_subscribed (some regex) =
      if provider_subscribed
      then (
        some h,
        record lcm {
          handlers_all = add lcm.handlers_all h;
          handlers_map =
              foreach
                (λ channel_name handlers.
                  if regex_match regex channel_name then add handlers h else handlers)
                lcm.handlers_map;
          subscriptions = change lcm.subscriptions h (record {
            regex = regex;
            callback_scheduled = false;
            marked_for_deletion = false;
            freed = false;
          });
        },
      )
      else (none, lcm)

  -- What becomes of a subscription that is taken off the lists.
  abbrev pub retire : Subscription Pattern → Subscription Pattern
  retire s =
      if s.callback_scheduled
      then record s { marked_for_deletion = true }
      else record s { freed = true }

  abbrev pub unlisted : Lcm Arr Table Pattern → ℕ → Bool × Arr → ℤ × Lcm Arr Table Pattern
  unlisted lcm h (true, rest) = (
    pos 0,
    record lcm {
      handlers_all = rest;
      handlers_map = foreach (λ _ handlers. remove_fast handlers h) lcm.handlers_map;
      subscriptions = change lcm.subscriptions h (retire (lcm.subscriptions h));
    },
  )
  unlisted lcm h (false, rest) = (minus_one, record lcm { handlers_all = rest })

  -- lcm_unsubscribe
  unfoldable pub lcm_unsubscribe : Lcm Arr Table Pattern → ℕ → ℤ × Lcm Arr Table Pattern
  lcm_unsubscribe lcm h = unlisted lcm h (remove lcm.handlers_all h)

  -- The loop of lcm_get_handlers.
  abbrev pub matching : Lcm Arr Table Pattern → List ℕ → List ℕ → Arr → Arr
  matching lcm channel [] handlers = handlers
  matching lcm channel (h ∷ rest) handlers =
      matching lcm channel rest
        (if is_handler_subscriber lcm h channel then add handlers h else handlers)

  abbrev pub found_or_made :
      Lcm Arr Table Pattern → List ℕ → Option Arr → Arr × Lcm Arr Table Pattern
  found_or_made lcm channel (some handlers) = (handlers, lcm)
  found_or_made lcm channel none =
      let handlers = matching lcm channel (items lcm.handlers_all) empty in
      (handlers, record lcm { handlers_map = insert lcm.handlers_map channel handlers })

  -- lcm_get_handlers
  unfoldable pub lcm_get_handlers : Lcm Arr Table Pattern → List ℕ → Arr × Lcm Arr Table Pattern
  lcm_get_handlers lcm channel = found_or_made lcm channel (lookup lcm.handlers_map channel)

  abbrev pub is_empty : List ℕ → Bool
  is_empty [] = true
  is_empty (h ∷ rest) = false

  -- lcm_has_handlers
  unfoldable pub lcm_has_handlers : Lcm Arr Table Pattern → List ℕ → Bool × Lcm Arr Table Pattern
  lcm_has_handlers lcm channel =
      let (handlers, lcm1) = lcm_get_handlers lcm channel in (not (is_empty (items handlers)), lcm1)
