-- ===== src/Handlers/Dispatched.antt =====
-- upstream/lcm/lcm.c: what lcm_dispatch_handlers leaves of the subscriptions and the lists.
use conftron.Base.{
  ℕ, ◌+◌, ◌-◌, ◌≡◌, refl, sym, ap, ap₂, subst, ◌∙◌, true, false, some, List, [], ◌∷◌, if◌then◌else◌,
  Bool, Bool-cases, inl, inr, ◌&&◌, eq→==, ne→==_false, ℕ_discrete, arith,
}
use conftron.Handlers.{Glib, Lcm, Subscription, change, lcm_get_handlers}
use conftron.Handlers.Dispatch.{
  schedule, call_handler, unschedule, delete_all, lcm_dispatch_handlers,
}
use conftron.Handlers.Inv.{Laws, count, one_less}
use conftron.Handlers.Calls.{OnlyAdds, each, marked, lcm_dispatch_handlers-each}
use conftron.Handlers.Marks.{is_listed, taken_off, count-marked, is_listed-marked}

module _ (glib : Glib) where
  open glib use {Arr, items, Table, lookup, foreach, Pattern}

  abbrev S : Type 0
  S = Lcm Arr Table Pattern

  -- The marks that are set before the handlers are called: each subscription of the list is scheduled,
  -- and nothing else changes.
  pub record Scheduled (hs : List ℕ) (lcm lcm' : S) : Type 0 where
    pub scheduled :
        (k : ℕ)
        → lcm'.subscriptions k ≡ (
            if is_listed k hs
            then record (lcm.subscriptions k) { callback_scheduled = true }
            else lcm.subscriptions k)
    pub same_all : lcm'.handlers_all ≡ lcm.handlers_all
    pub same_map : lcm'.handlers_map ≡ lcm.handlers_map

  -- The calls in the order of the list: a handler is passed over just if its subscription is marked for
  -- deletion when its turn comes.
  pub data Calls (handler : ℕ → S → S) : List ℕ → S → S → Type 0 where
    all_called : (lcm : S) → Calls handler [] lcm lcm
    passes_over :
        (h : ℕ) (hs : List ℕ) (lcm lcm' : S)
        → (lcm.subscriptions h).marked_for_deletion ≡ true
        → Calls handler hs lcm lcm'
        → Calls handler (h ∷ hs) lcm lcm'
    calls :
        (h : ℕ) (hs : List ℕ) (lcm lcm' : S)
        → (lcm.subscriptions h).marked_for_deletion ≡ false
        → Calls handler hs (handler h lcm) lcm'
        → Calls handler (h ∷ hs) lcm lcm'

  -- The end: no subscription of the message is scheduled any more; those of them that are marked for
  -- deletion are freed and off the list of all and the lists of the channels; the others are as they were.
  pub record Cleaned (hs : List ℕ) (lcm lcm' : S) : Type 0 where
    pub cleaned :
        (k : ℕ)
        → lcm'.subscriptions k ≡ (
            if is_listed k hs
            then record (lcm.subscriptions k) {
              callback_scheduled = false;
              freed =
                  (if (lcm.subscriptions k).marked_for_deletion
                    then true
                    else (lcm.subscriptions k).freed);
            }
            else lcm.subscriptions k)
    pub from_all :
        (k : ℕ)
        → count k (items lcm'.handlers_all)
          ≡ count k (items lcm.handlers_all) - taken_off glib hs lcm k
    pub from_channels :
        (c : List ℕ) (a' : Arr)
        → lookup lcm'.handlers_map c ≡ some a'
        → (a : Arr) × (lookup lcm.handlers_map c ≡ some a)
          × ((k : ℕ) → count k (items a') ≡ count k (items a) - taken_off glib hs lcm k)
    pub keeps_channels :
        (c : List ℕ) (a : Arr)
        → lookup lcm.handlers_map c ≡ some a
        → (a' : Arr) × (lookup lcm'.handlers_map c ≡ some a')

  -- g_hash_table_foreach leaves an entry for each channel that has one.
  abbrev pub KeepsChannels : Type 0
  KeepsChannels =
      (f : List ℕ → Arr → Arr) (t : Table) (c : List ℕ) (a : Arr)
      → lookup t c ≡ some a
      → (a' : Arr) × (lookup (foreach f t) c ≡ some a')

  -- A change of each subscription of a list.
  abbrev sets :
      (Subscription Pattern → Subscription Pattern)
      → List ℕ
      → (ℕ → Subscription Pattern)
      → ℕ
      → Subscription Pattern
  sets f [] subscriptions = subscriptions
  sets f (h ∷ hs) subscriptions = sets f hs (change glib subscriptions h (f (subscriptions h)))

  sets_lem :
      (f : Subscription Pattern → Subscription Pattern)
      → ((s : Subscription Pattern) → f (f s) ≡ f s)
      → (hs : List ℕ) (subscriptions : ℕ → Subscription Pattern) (k : ℕ)
      → sets f hs subscriptions k
        ≡ (if is_listed k hs then f (subscriptions k) else subscriptions k)
  sets_lem f twice [] subscriptions k = refl
  sets_lem f twice (h ∷ hs) subscriptions k =
      sets_lem f twice hs (change glib subscriptions h (f (subscriptions h))) k
      ∙ here (ℕ_discrete k h)
    where
      once : (b : Bool) (x : Subscription Pattern) → (if b then f (f x) else f x) ≡ f x
      once true x = twice x
      once false x = refl

      here :
          Dec (k ≡ h)
          → (if is_listed k hs
              then f (change glib subscriptions h (f (subscriptions h)) k)
              else change glib subscriptions h (f (subscriptions h)) k)
            ≡ (if is_listed k (h ∷ hs) then f (subscriptions k) else subscriptions k)
      here (yes e) =
          rw (eq→== k h e)
            (once (is_listed k hs) (subscriptions h) ∙ ap (λ x. f (subscriptions x)) (sym e))
      here (no n) = rw (ne→==_false k h n) refl

  module _ (handler : ℕ → S → S) (channel : List ℕ) where
    each-schedule :
        (hs : List ℕ) (lcm : S)
        → each glib handler channel (schedule glib handler) hs lcm ≡ record lcm {
          subscriptions = sets (λ x. record x { callback_scheduled = true }) hs lcm.subscriptions;
        }
    each-schedule [] lcm = refl
    each-schedule (h ∷ hs) lcm = each-schedule hs (schedule glib handler h lcm)

    each-unschedule :
        (hs : List ℕ) (lcm : S)
        → each glib handler channel (unschedule glib handler) hs lcm ≡ record lcm {
          subscriptions = sets (λ x. record x { callback_scheduled = false }) hs lcm.subscriptions;
        }
    each-unschedule [] lcm = refl
    each-unschedule (h ∷ hs) lcm = each-unschedule hs (unschedule glib handler h lcm)

    each-Calls :
        (hs : List ℕ) (lcm : S)
        → Calls handler hs lcm (each glib handler channel (call_handler glib handler) hs lcm)
    each-Calls [] lcm = all_called lcm
    each-Calls (h ∷ hs) lcm = elim (Bool-cases (lcm.subscriptions h).marked_for_deletion) [
      | inl m ↦ passes_over h hs lcm _ m (
          subst
            (λ b. Calls handler hs lcm (
              each glib handler channel (call_handler glib handler) hs
                (if b then lcm else handler h lcm)))
            (sym m) (each-Calls hs lcm))
      | inr m ↦ calls h hs lcm _ m (
          subst
            (λ b. Calls handler hs (handler h lcm) (
              each glib handler channel (call_handler glib handler) hs
                (if b then lcm else handler h lcm)))
            (sym m) (each-Calls hs (handler h lcm)))
    ]

    delete_all-subscriptions :
        (found : List ℕ) (lcm : S)
        → (delete_all glib handler found lcm).subscriptions
          ≡ sets (λ x. record x { freed = true }) found lcm.subscriptions
    delete_all-subscriptions [] lcm = refl
    delete_all-subscriptions (h ∷ found) lcm = delete_all-subscriptions found _

    count_less :
        (k h : ℕ) (found : List ℕ) (n : ℕ)
        → one_less k h n - count k found ≡ n - count k (h ∷ found)
    count_less k h found n = ground arith

    delete_all-handlers_all :
        Laws glib
        → (found : List ℕ) (lcm : S) (k : ℕ)
        → count k (items (delete_all glib handler found lcm).handlers_all)
          ≡ count k (items lcm.handlers_all) - count k found
    delete_all-handlers_all laws [] lcm k = omega arith
    delete_all-handlers_all laws (h ∷ found) lcm k =
        delete_all-handlers_all laws found _ k
        ∙ (ap (λ n. n - count k found) (laws.count-remove lcm.handlers_all h k)
            ∙ count_less k h found (count k (items lcm.handlers_all)))

    delete_all-handlers_map :
        Laws glib
        → (found : List ℕ) (lcm : S) (c : List ℕ) (a' : Arr)
        → lookup (delete_all glib handler found lcm).handlers_map c ≡ some a'
        → (a : Arr) × (lookup lcm.handlers_map c ≡ some a)
          × ((k : ℕ) → count k (items a') ≡ count k (items a) - count k found)
    delete_all-handlers_map laws [] lcm c a' e = (a', e, λ k. omega arith)
    delete_all-handlers_map laws (h ∷ found) lcm c a' e =
        let (a, found_a, less) = delete_all-handlers_map laws found _ c a' e in
        let (b, found_b, removed) = laws.lookup-foreach _ lcm.handlers_map c a found_a in
        (
          b,
          found_b,
          λ k.
              less k
              ∙ (ap (λ n. n - count k found)
                    (ap (λ x. count k (items x)) removed ∙ laws.count-remove_fast b h k)
                  ∙ count_less k h found (count k (items b))),
        )

    delete_all-KeepsChannels :
        KeepsChannels
        → (found : List ℕ) (lcm : S) (c : List ℕ) (a : Arr) → lookup lcm.handlers_map c ≡ some a
        → (a' : Arr) × (lookup (delete_all glib handler found lcm).handlers_map c ≡ some a')
    delete_all-KeepsChannels kept [] lcm c a e = (a, e)
    delete_all-KeepsChannels kept (h ∷ found) lcm c a e =
        let (b, found_b) = kept _ lcm.handlers_map c a e in
        delete_all-KeepsChannels kept found _ c b found_b

    -- The subscription of an end, by whether it was to be called and is marked.
    end_lem :
        (l m : Bool) (x : Subscription Pattern)
        → (if m && l
            then record (if l then record x { callback_scheduled = false } else x) { freed = true }
            else (if l then record x { callback_scheduled = false } else x))
          ≡ (if l
              then record x { callback_scheduled = false; freed = (if m then true else x.freed) }
              else x)
    end_lem true true x = refl
    end_lem true false x = refl
    end_lem false true x = refl
    end_lem false false x = refl

    ends-Cleaned :
        Laws glib
        → KeepsChannels
        → (hs : List ℕ) (lcm : S)
        → Cleaned hs lcm (
            delete_all glib handler
              (marked glib handler channel lcm hs [])
              (each glib handler channel (unschedule glib handler) hs lcm))
    ends-Cleaned laws kept hs lcm =
        subst
          (λ x. Cleaned hs lcm (delete_all glib handler (marked glib handler channel lcm hs []) x))
          (sym (each-unschedule hs lcm))
          (record {
            cleaned = λ k.
                ap (λ f. f k) (delete_all-subscriptions found lcm4)
                ∙ (sets_lem (λ x. record x { freed = true }) (λ x. refl) found lcm4.subscriptions k
                    ∙ (ap₂
                          (λ (b : Bool) (x : Subscription Pattern).
                            if b then record x { freed = true } else x)
                          (is_listed-marked glib handler channel lcm hs [] k)
                          (sets_lem (λ x. record x { callback_scheduled = false }) (λ x. refl) hs
                            lcm.subscriptions k)
                        ∙ end_lem (is_listed k hs) (lcm.subscriptions k).marked_for_deletion
                            (lcm.subscriptions k)));
            from_all = λ k.
                delete_all-handlers_all laws found lcm4 k
                ∙ ap (λ n. count k (items lcm.handlers_all) - n) (taken k);
            from_channels = λ c a' e.
                let (a, found_a, less) = delete_all-handlers_map laws found lcm4 c a' e in
                (a, found_a, λ k. less k ∙ ap (λ n. count k (items a) - n) (taken k));
            keeps_channels = λ c a e. delete_all-KeepsChannels kept found lcm4 c a e;
          })
      where
        found : List ℕ
        found = marked glib handler channel lcm hs []

        lcm4 : S
        lcm4 = record lcm {
          subscriptions = sets (λ x. record x { callback_scheduled = false }) hs lcm.subscriptions;
        }

        taken : (k : ℕ) → count k (marked glib handler channel lcm hs []) ≡ taken_off glib hs lcm k
        taken k =
            count-marked glib handler channel lcm hs [] k ∙ plus_none (taken_off glib hs lcm k)
          where
            plus_none : (n : ℕ) → n + 0 ≡ n
            plus_none n = omega arith

    -- If no handler takes a subscription off the array of the channel, whatever it adds to it,
    -- lcm_dispatch_handlers returns. It has scheduled the subscriptions that stood in the array of
    -- lcm_get_handlers, and then called their handlers, once each and in the order of the array, passing
    -- over a subscription just if it was marked for deletion when its turn came; none that was added is
    -- called. At the end none of them is scheduled any more; those that are marked for deletion are freed,
    -- and taken off the list of all and the lists of the channels as often as they stood in the array;
    -- the same channels have lists, and nothing else is changed.
    pub lcm_dispatch_handlers-Cleaned :
        Laws glib
        → KeepsChannels
        → ((h : ℕ) (lcm : S) → OnlyAdds glib handler channel lcm (handler h lcm))
        → (lcm : S)
        → let (handlers, lcm1) = lcm_get_handlers glib lcm channel in
          (lcm2 : S) × (lcm3 : S) × (lcm4 : S) × (lcm_dispatch_handlers glib handler lcm channel
            ≡ some lcm4)
          × Scheduled (items handlers) lcm1 lcm2
          × Calls handler (items handlers) lcm2 lcm3
          × Cleaned (items handlers) lcm3 lcm4
    lcm_dispatch_handlers-Cleaned laws kept adds lcm =
        let (handlers, lcm1) = lcm_get_handlers glib lcm channel in
        let hs = items handlers in
        let lcm2 = each glib handler channel (schedule glib handler) hs lcm1 in
        let lcm3 = each glib handler channel (call_handler glib handler) hs lcm2 in
        (
          lcm2,
          lcm3,
          delete_all glib handler (marked glib handler channel lcm3 hs [])
              (each glib handler channel (unschedule glib handler) hs lcm3),
          lcm_dispatch_handlers-each glib handler channel laws adds lcm,
          record {
            scheduled = λ k.
                ap (λ (x : S). x.subscriptions k) (each-schedule hs lcm1)
                ∙ sets_lem (λ x. record x { callback_scheduled = true }) (λ x. refl) hs
                    lcm1.subscriptions k;
            same_all = ap (λ (x : S). x.handlers_all) (each-schedule hs lcm1);
            same_map = ap (λ (x : S). x.handlers_map) (each-schedule hs lcm1);
          },
          each-Calls hs lcm2,
          ends-Cleaned laws kept hs lcm3,
        )
