-- ===== src/Handlers/Calls.antt =====
-- upstream/lcm/lcm.c: which handlers a message is given to.
use conftron.Base.{
  ℕ, ◌+◌, ◌≡◌, refl, sym, ap, subst, ◌∙◌, true, false, Option, none, some, List, [], ◌∷◌, ◌++◌,
  length, get_elem?, if◌then◌else◌, Bool, ◌>>=◌, append_assoc, append-nil, length-append,
}
use conftron.Handlers.{Glib, Lcm, lcm_get_handlers, found_or_made, matching}
use conftron.Handlers.Dispatch.{
  handler_at, for_handlers, schedule, call_handler, unschedule, to_remove, delete_all,
  lcm_dispatch_handlers,
}
use conftron.Handlers.Inv.{Laws}

get_elem?-append_head :
    (pre : List ℕ) (h : ℕ) (post : List ℕ) → get_elem? (pre ++ (h ∷ post)) (length pre) ≡ some h
get_elem?-append_head [] h post = refl
get_elem?-append_head (x ∷ pre) h post = get_elem?-append_head pre h post

module _ (glib : Glib)
    (handler : ℕ → Lcm glib.Arr glib.Table glib.Pattern → Lcm glib.Arr glib.Table glib.Pattern)
    (channel : List ℕ) where
  open glib use {Arr, items, Table, lookup, Pattern}

  abbrev S : Type 0
  S = Lcm Arr Table Pattern

  -- The array of the channel begins with these subscriptions.
  record Starts (lcm : S) (xs : List ℕ) : Type 0 where
    handlers : Arr
    more : List ℕ
    listed : lookup lcm.handlers_map channel ≡ some handlers
    starts : items handlers ≡ xs ++ more

  -- A step that may put subscriptions behind those of the channel, and takes none away.
  pub record OnlyAdds (before after : S) : Type 0 where
    pub added :
        (handlers : Arr)
        → lookup before.handlers_map channel ≡ some handlers
        → (longer : Arr) × (more : List ℕ) × (lookup after.handlers_map channel ≡ some longer)
          × (items longer ≡ items handlers ++ more)

  abbrev Adds : (ℕ → S → S) → Type 0
  Adds body = (h : ℕ) (lcm : S) → OnlyAdds lcm (body h lcm)

  -- A step for each subscription of a list, in its order.
  abbrev pub each : (ℕ → S → S) → List ℕ → S → S
  each body [] lcm = lcm
  each body (h ∷ hs) lcm = each body hs (body h lcm)

  -- Those that are marked for deletion, the last in front.
  abbrev pub marked : S → List ℕ → List ℕ → List ℕ
  marked lcm [] found = found
  marked lcm (h ∷ hs) found =
      marked lcm hs (if (lcm.subscriptions h).marked_for_deletion then h ∷ found else found)

  handler_at-Starts :
      (lcm : S) (pre hs : List ℕ) (h : ℕ)
      → Starts lcm (pre ++ (h ∷ hs))
      → handler_at glib handler lcm channel (length pre) ≡ some h
  handler_at-Starts lcm pre hs h s =
      ap (λ o. o >>= λ handlers. get_elem? (items handlers) (length pre)) s.listed
      ∙ (ap (λ xs. get_elem? xs (length pre)) (s.starts ∙ append_assoc pre (h ∷ hs) s.more)
          ∙ get_elem?-append_head pre h (hs ++ s.more))

  OnlyAdds-Starts :
      (lcm after : S) (xs : List ℕ) → OnlyAdds lcm after → Starts lcm xs → Starts after xs
  OnlyAdds-Starts lcm after xs adds s =
      let (longer, more, listed, starts) = adds.added s.handlers s.listed in
      record {
        handlers = longer;
        more = s.more ++ more;
        listed = listed;
        starts = starts ∙ (ap (λ ys. ys ++ more) s.starts ∙ append_assoc xs s.more more);
      }

  for_handlers-each :
      (body : ℕ → S → S) (hs pre : List ℕ) (lcm : S)
      → Adds body
      → Starts lcm (pre ++ hs)
      → (for_handlers glib handler body channel (length hs) (length pre) lcm
          ≡ some (each body hs lcm))
        × Starts (each body hs lcm) (pre ++ hs)
  for_handlers-each body [] pre lcm adds s = (refl, s)
  for_handlers-each body (h ∷ hs) pre lcm adds s =
      let next =
        subst (Starts (body h lcm)) (sym (append_assoc pre (h ∷ []) hs))
          (OnlyAdds-Starts lcm (body h lcm) (pre ++ (h ∷ hs)) (adds h lcm) s) in
      let (e, after) = for_handlers-each body hs (pre ++ (h ∷ [])) (body h lcm) adds next in
      (
        ap
              (λ o. o >>= λ k.
                for_handlers glib handler body channel (length hs) (length pre + 1) (body k lcm))
              (handler_at-Starts lcm pre hs h s)
            ∙ (ap (λ n. for_handlers glib handler body channel (length hs) n (body h lcm))
                  (sym (length-append pre (h ∷ [])))
                ∙ e),
        subst (Starts (each body hs (body h lcm))) (append_assoc pre (h ∷ []) hs) after,
      )

  to_remove-marked :
      (lcm : S) (hs pre found : List ℕ)
      → Starts lcm (pre ++ hs)
      → to_remove glib handler lcm channel (length hs) (length pre) found
        ≡ some (marked lcm hs found)
  to_remove-marked lcm [] pre found s = refl
  to_remove-marked lcm (h ∷ hs) pre found s =
      ap
        (λ o. o >>= λ k.
          to_remove glib handler lcm channel (length hs) (length pre + 1)
            (if (lcm.subscriptions k).marked_for_deletion then k ∷ found else found))
        (handler_at-Starts lcm pre hs h s)
      ∙ (ap
            (λ n.
              to_remove glib handler lcm channel (length hs) n
                (if (lcm.subscriptions h).marked_for_deletion then h ∷ found else found))
            (sym (length-append pre (h ∷ [])))
          ∙ to_remove-marked lcm hs (pre ++ (h ∷ [])) _
              (subst (Starts lcm) (sym (append_assoc pre (h ∷ []) hs)) s))

  same_lists : (before after : S) → before.handlers_map ≡ after.handlers_map → OnlyAdds before after
  same_lists before after e = record {
    added = λ handlers h.
        (handlers, [], ap (λ t. lookup t channel) (sym e) ∙ h, sym (append-nil (items handlers)));
  }

  schedule-Adds : Adds (schedule glib handler)
  schedule-Adds h lcm = same_lists lcm _ refl

  unschedule-Adds : Adds (unschedule glib handler)
  unschedule-Adds h lcm = same_lists lcm _ refl

  call_handler-Adds : Adds handler → Adds (call_handler glib handler)
  call_handler-Adds adds h lcm = either (lcm.subscriptions h).marked_for_deletion
    where
      either : (b : Bool) → OnlyAdds lcm (if b then lcm else handler h lcm)
      either true = same_lists lcm lcm refl
      either false = adds h lcm

  get_handlers-Starts :
      Laws glib → (lcm : S) → let r = lcm_get_handlers glib lcm channel in Starts r.1 (items r.0)
  unfolding lcm_get_handlers
  get_handlers-Starts laws lcm = found (lookup lcm.handlers_map channel) refl
    where
      found :
          (o : Option Arr)
          → lookup lcm.handlers_map channel ≡ o
          → let r = found_or_made glib lcm channel o in Starts r.1 (items r.0)
      found (some handlers) e = record {
        handlers = handlers;
        more = [];
        listed = e;
        starts = sym (append-nil (items handlers));
      }
      found none e = record {
        handlers = matching glib lcm channel (items lcm.handlers_all) glib.empty;
        more = [];
        listed = laws.lookup-insert_self lcm.handlers_map channel _;
        starts = sym (append-nil _);
      }

  -- The message is given to each subscription of a list in its order.
  abbrev pub after_calls : List ℕ → S → S
  after_calls hs lcm = each (call_handler glib handler) hs (each (schedule glib handler) hs lcm)

  -- If no handler takes a subscription off the array of the channel, whatever it adds to it,
  -- lcm_dispatch_handlers returns, and has called the handlers that stood in the array of
  -- lcm_get_handlers, once each and in the order of the array, but for those that were marked for
  -- deletion when their turn came; none that was added is called. It has then taken the marked ones off
  -- the lists, and cleared the marks of those that were to be called.
  pub lcm_dispatch_handlers-each :
      Laws glib
      → ((h : ℕ) (lcm : S) → OnlyAdds lcm (handler h lcm))
      → (lcm : S)
      → let (handlers, lcm1) = lcm_get_handlers glib lcm channel in
        let hs = items handlers in
        let lcm3 = after_calls hs lcm1 in
        lcm_dispatch_handlers glib handler lcm channel
        ≡ some
            (delete_all glib handler (marked lcm3 hs []) (each (unschedule glib handler) hs lcm3))
  unfolding lcm_dispatch_handlers
  lcm_dispatch_handlers-each laws adds lcm =
      let hs = items (lcm_get_handlers glib lcm channel).0 in
      let lcm1 = (lcm_get_handlers glib lcm channel).1 in
      let (e2, s2) =
        for_handlers-each (schedule glib handler) hs [] lcm1 schedule-Adds
          (get_handlers-Starts laws lcm) in
      let lcm2 = each (schedule glib handler) hs lcm1 in
      let (e3, s3) =
        for_handlers-each (call_handler glib handler) hs [] lcm2 (call_handler-Adds adds) s2 in
      let lcm3 = each (call_handler glib handler) hs lcm2 in
      let (e4, s4) = for_handlers-each (unschedule glib handler) hs [] lcm3 unschedule-Adds s3 in
      let rest3 = λ (lcm4 : S). to_remove glib handler lcm3 channel (length hs) 0 [] >>= λ found.
      some (delete_all glib handler found lcm4) in
      let rest2 = λ (x : S).
        for_handlers glib handler (unschedule glib handler) channel (length hs) 0 x >>= λ lcm4.
        to_remove glib handler x channel (length hs) 0 [] >>= λ found.
        some (delete_all glib handler found lcm4) in
      let rest1 = λ (x : S).
        for_handlers glib handler (call_handler glib handler) channel (length hs) 0 x >>= rest2 in
      ap (λ o. o >>= rest1) e2
      ∙ (ap (λ o. o >>= rest2) e3
          ∙ (ap (λ o. o >>= rest3) e4
              ∙ ap
                  (λ o. o >>= λ found.
                    some (delete_all glib handler found (each (unschedule glib handler) hs lcm3)))
                  (to_remove-marked lcm3 hs [] [] s3)))
