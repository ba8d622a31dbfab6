-- ===== src/Handlers/Inv/Subscribe.antt =====
-- upstream/lcm/lcm.c: lcm_subscribe keeps the lists of the channels consistent.
use conftron.Base.{
  ℕ, ◌+◌, ◌≡◌, ◌≢◌, refl, sym, ap, ap₂, ◌∙◌, Bool, true, false, Option, none, some, if◌then◌else◌,
  arith, eq→==, ne→==_false, ℕ_discrete,
}
use conftron.Handlers.{Glib, Lcm, is_handler_subscriber, lcm_subscribe}
use conftron.Handlers.Inv.{count, Laws, IsConsistent, count-add}

module _ (glib : Glib) (laws : Laws glib) (lcm : Lcm glib.Arr glib.Table glib.Pattern)
    (ok : IsConsistent glib lcm) where
  count-add_self :
      (a : glib.Arr) (h : ℕ) → count h (glib.items (glib.add a h)) ≡ count h (glib.items a) + 1
  count-add_self a h =
      count-add glib laws lcm ok a h h
      ∙ ap (λ t. count h (glib.items a) + (if t then 1 else 0)) (eq→== h h refl)

  count-add_ne :
      (a : glib.Arr) (h k : ℕ)
      → k ≢ h
      → count k (glib.items (glib.add a h)) ≡ count k (glib.items a)
  count-add_ne a h k e =
      count-add glib laws lcm ok a h k
      ∙ (ap (λ t. count k (glib.items a) + (if t then 1 else 0)) (ne→==_false k h e) ∙ omega arith)

  -- A subscription that is on no list yet goes on the lists of all, and of a channel that it matches.
  added_self :
      (m : Bool) (b : glib.Arr) (h : ℕ)
      → count h (glib.items b) ≡ 0
      → count h (glib.items lcm.handlers_all) ≡ 0
      → count h (glib.items (if m then glib.add b h else b))
        ≡ (if m then count h (glib.items (glib.add lcm.handlers_all h)) else 0)
  added_self true b h e e' =
      omega (arith, e, e', count-add_self b h, count-add_self lcm.handlers_all h)
  added_self false b h e e' = e

  added_ne :
      (m : Bool) (b : glib.Arr) (h k : ℕ)
      → k ≢ h
      → count k (glib.items (if m then glib.add b h else b)) ≡ count k (glib.items b)
  added_ne true b h k e = count-add_ne b h k e
  added_ne false b h k e = refl

  if_zero : (m : Bool) → Path ℕ (if m then 0 else 0) 0
  if_zero true = refl
  if_zero false = refl

  -- Where the lists of the channels are consistent, they are so after lcm_subscribe with a subscription
  -- that is not listed yet, whether it succeeds or not.
  pub lcm_subscribe-IsConsistent :
      (h : ℕ) (provider_subscribed : Bool) (compiled : Option glib.Pattern)
      → count h (glib.items lcm.handlers_all) ≡ 0
      → IsConsistent glib (lcm_subscribe glib lcm h provider_subscribed compiled).1
  unfolding IsConsistent lcm_subscribe
  lcm_subscribe-IsConsistent h b none fresh channel handlers k found = ok channel handlers k found
  lcm_subscribe-IsConsistent h false (some regex) fresh channel handlers k found =
      ok channel handlers k found
  lcm_subscribe-IsConsistent h true (some regex) fresh channel handlers k found =
      let (b, old, added) = laws.lookup-foreach _ lcm.handlers_map channel handlers found in
      ap (λ t. count k (glib.items t)) added ∙ elim (ℕ_discrete k h) [
        | yes e ↦ rw e (
            added_self (glib.regex_match regex channel) b h
              (ok channel b h old
                ∙ (ap (λ n. if is_handler_subscriber glib lcm h channel then n else 0) fresh
                    ∙ if_zero (is_handler_subscriber glib lcm h channel)))
              fresh
            ∙ ap
                (λ t.
                  if glib.regex_match
                    (if t
                      then (record {
                        regex = regex;
                        callback_scheduled = false;
                        marked_for_deletion = false;
                        freed = false;
                      })
                      else lcm.subscriptions h).regex
                    channel
                  then count h (glib.items (glib.add lcm.handlers_all h))
                  else 0)
                (sym (eq→== h h refl)))
        | no e ↦
            added_ne (glib.regex_match regex channel) b h k e
            ∙ (ok channel b k old
                ∙ ap₂ (λ m n. if m then n else 0)
                    (ap
                      (λ t.
                        glib.regex_match
                          (if t
                            then (record {
                              regex = regex;
                              callback_scheduled = false;
                              marked_for_deletion = false;
                              freed = false;
                            })
                            else lcm.subscriptions k).regex
                          channel)
                      (sym (ne→==_false k h e)))
                    (sym (count-add_ne lcm.handlers_all h k e)))
      ]
