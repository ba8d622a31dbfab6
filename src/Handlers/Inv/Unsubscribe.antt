-- ===== src/Handlers/Inv/Unsubscribe.antt =====
-- upstream/lcm/lcm.c: lcm_unsubscribe keeps the lists of the channels consistent.
use conftron.Base.{
  ℕ, ◌≡◌, refl, sym, ap, ap₂, ◌∙◌, Bool, true, false, List, if◌then◌else◌, arith, eq→==,
  ne→==_false, ℕ_discrete, Bool-cases, inl, inr,
}
use conftron.Handlers.{Glib, Lcm, change, is_handler_subscriber, retire, unlisted, lcm_unsubscribe}
use conftron.Handlers.Inv.{count, one_less, Laws, IsConsistent}

module _ (glib : Glib) (laws : Laws glib) (lcm : Lcm glib.Arr glib.Table glib.Pattern)
    (ok : IsConsistent glib lcm) where
  retired_lem :
      (h k : ℕ) (channel : List ℕ)
      → glib.regex_match
          (change glib lcm.subscriptions h (retire glib (lcm.subscriptions h)) k).regex
          channel
        ≡ is_handler_subscriber glib lcm k channel
  retired_lem h k channel = elim (ℕ_discrete k h) [
    | yes e ↦ elim (Bool-cases (lcm.subscriptions h).callback_scheduled) [
      | inl b ↦ rw (e, eq→== h h refl, b) refl
      | inr b ↦ rw (e, eq→== h h refl, b) refl
    ]
    | no e ↦ rw (ne→==_false k h e) refl
  ]

  less_if :
      (b : Bool) (k h n : ℕ) → one_less k h (if b then n else 0) ≡ (if b then one_less k h n else 0)
  less_if true k h n = refl
  less_if false k h n = ground arith

  count-rest :
      (h k : ℕ) (r : Bool × glib.Arr)
      → glib.remove lcm.handlers_all h ≡ r
      → count k (glib.items r.1) ≡ one_less k h (count k (glib.items lcm.handlers_all))
  count-rest h k r e =
      ap (λ t. count k (glib.items t.1)) (sym e) ∙ laws.count-remove lcm.handlers_all h k

  none_less :
      (h k : ℕ)
      → (glib.remove lcm.handlers_all h).0 ≡ false
      → one_less k h (count k (glib.items lcm.handlers_all)) ≡ count k (glib.items lcm.handlers_all)
  none_less h k e = elim (ℕ_discrete k h) [
    | yes same ↦ rw (same, eq→== h h refl) (omega (arith, laws.remove_found lcm.handlers_all h e))
    | no other ↦ rw (ne→==_false k h other) refl
  ]

  unlisted-IsConsistent :
      (h : ℕ) (r : Bool × glib.Arr)
      → glib.remove lcm.handlers_all h ≡ r
      → IsConsistent glib (unlisted glib lcm h r).1
  unfolding IsConsistent
  unlisted-IsConsistent h (true, rest) e channel handlers k found =
      let all = count k (glib.items lcm.handlers_all) in
      let (b, old, removed) = laws.lookup-foreach _ lcm.handlers_map channel handlers found in
      ap (λ t. count k (glib.items t)) removed
      ∙ (laws.count-remove_fast b h k
          ∙ (ap (one_less k h) (ok channel b k old)
              ∙ (less_if (is_handler_subscriber glib lcm k channel) k h all
                  ∙ ap₂ (λ m n. if m then n else 0) (sym (retired_lem h k channel))
                      (sym (count-rest h k (true, rest) e)))))
  unlisted-IsConsistent h (false, rest) e channel handlers k found =
      ok channel handlers k found
      ∙ ap (λ n. if is_handler_subscriber glib lcm k channel then n else 0)
          (sym (count-rest h k (false, rest) e ∙ none_less h k (ap (λ t. t.0) e)))

  -- Where the lists of the channels are consistent, they are so after lcm_unsubscribe, whether the
  -- subscription was there or not.
  pub lcm_unsubscribe-IsConsistent : (h : ℕ) → IsConsistent glib (lcm_unsubscribe glib lcm h).1
  unfolding lcm_unsubscribe
  lcm_unsubscribe-IsConsistent h = unlisted-IsConsistent h (glib.remove lcm.handlers_all h) refl
