-- ===== src/Handlers/Dispatch.antt =====
-- How lcm.c hands a message to the handlers of its channel, and passes calls on to the provider.
use conftron.Base.{
  ℕ, zero, suc, ◌+◌, true, false, Option, none, some, List, [], ◌∷◌, length, get_elem?,
  if◌then◌else◌, ℤ, minus_one, ◌>>=◌,
}
use conftron.Handlers.{Glib, Lcm, change, lcm_get_handlers}

-- lcm_provider_vtable_t, with the functions that a provider may leave out.
pub record Vtable (Provider : Type 0) : Type 0 where
  pub handle : Option (Provider → ℤ × Provider)
  pub get_fileno : Option (Provider → ℤ × Provider)
  pub publish : Option (Provider → List ℕ → List ℕ → ℤ × Provider)

-- A call of a function of the provider, if there are both.
abbrev pub call_provider :
    {Provider : Type 0} → Option (Provider → ℤ × Provider) → Option Provider → ℤ × Option Provider
call_provider none provider = (minus_one, provider)
call_provider (some f) none = (minus_one, none)
call_provider (some f) (some provider) = let (ret, provider1) = f provider in (ret, some provider1)

-- lcm_handle, lcm_get_fileno, lcm_publish
abbrev pub lcm_handle :
    {Provider : Type 0} → Vtable Provider → Option Provider → ℤ × Option Provider
lcm_handle vtable provider = call_provider vtable.handle provider

abbrev pub lcm_get_fileno :
    {Provider : Type 0} → Vtable Provider → Option Provider → ℤ × Option Provider
lcm_get_fileno vtable provider = call_provider vtable.get_fileno provider

abbrev pub given_message :
    {Provider : Type 0}
    → Option (Provider → List ℕ → List ℕ → ℤ × Provider)
    → List ℕ
    → List ℕ
    → Option (Provider → ℤ × Provider)
given_message none channel bytes = none
given_message (some f) channel bytes = some (λ provider. f provider channel bytes)

abbrev pub lcm_publish :
    {Provider : Type 0} → Vtable Provider → Option Provider → List ℕ → List ℕ → ℤ × Option Provider
lcm_publish vtable provider channel bytes =
    call_provider (given_message vtable.publish channel bytes) provider

-- `handler` is the effect of the handler of a subscription, which may subscribe and unsubscribe.
module _ (glib : Glib)
    (handler : ℕ
      → Lcm glib.Arr glib.Table glib.Pattern
      → Lcm glib.Arr glib.Table glib.Pattern) where
  open glib use {Arr, items, remove, remove_fast, Table, lookup, foreach, Pattern}

  abbrev pub State : Type 0
  State = Lcm Arr Table Pattern

  -- g_ptr_array_index of the channel's array as it is now; behind its end is undefined behaviour.
  abbrev pub handler_at : State → List ℕ → ℕ → Option ℕ
  handler_at lcm channel i =
      lookup lcm.handlers_map channel >>= λ handlers. get_elem? (items handlers) i

  -- for (int i = 0; i < nhandlers; i++), `left` rounds from `i` on
  abbrev pub for_handlers : (ℕ → State → State) → List ℕ → ℕ → ℕ → State → Option State
  for_handlers body channel zero i lcm = some lcm
  for_handlers body channel (suc left) i lcm =
      handler_at lcm channel i >>= λ h. for_handlers body channel left (i + 1) (body h lcm)

  abbrev pub schedule : ℕ → State → State
  schedule h lcm = record lcm {
    subscriptions =
        change glib lcm.subscriptions h
          (record (lcm.subscriptions h) { callback_scheduled = true });
  }

  abbrev pub call_handler : ℕ → State → State
  call_handler h lcm = if (lcm.subscriptions h).marked_for_deletion then lcm else handler h lcm

  abbrev pub unschedule : ℕ → State → State
  unschedule h lcm = record lcm {
    subscriptions =
        change glib lcm.subscriptions h
          (record (lcm.subscriptions h) { callback_scheduled = false });
  }

  -- The loop that clears the marks also makes the list of what is to be deleted, the last in front.
  abbrev pub to_remove : State → List ℕ → ℕ → ℕ → List ℕ → Option (List ℕ)
  to_remove lcm channel zero i found = some found
  to_remove lcm channel (suc left) i found = handler_at lcm channel i >>= λ h.
      to_remove lcm channel left (i + 1)
        (if (lcm.subscriptions h).marked_for_deletion then h ∷ found else found)

  abbrev pub delete_all : List ℕ → State → State
  delete_all [] lcm = lcm
  delete_all (h ∷ rest) lcm = delete_all rest (record lcm {
    handlers_all = (remove lcm.handlers_all h).1;
    handlers_map = foreach (λ _ handlers. remove_fast handlers h) lcm.handlers_map;
    subscriptions = change glib lcm.subscriptions h (record (lcm.subscriptions h) { freed = true });
  })

  -- lcm_dispatch_handlers
  unfoldable pub lcm_dispatch_handlers : State → List ℕ → Option State
  lcm_dispatch_handlers lcm channel =
      let (handlers, lcm1) = lcm_get_handlers glib lcm channel in
      let nhandlers = length (items handlers) in
      for_handlers schedule channel nhandlers 0 lcm1 >>= λ lcm2.
      for_handlers call_handler channel nhandlers 0 lcm2 >>= λ lcm3.
      for_handlers unschedule channel nhandlers 0 lcm3 >>= λ lcm4.
      to_remove lcm3 channel nhandlers 0 [] >>= λ found. some (delete_all found lcm4)
