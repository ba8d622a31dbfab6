-- ===== src/Handlers/Marks.antt =====
-- upstream/lcm/lcm.c: the subscriptions that lcm_dispatch_handlers finds marked for deletion.
use conftron.Base.{
  ℕ, ◌+◌, ◌≡◌, refl, ap, subst, ◌∙◌, true, false, List, [], ◌∷◌, if◌then◌else◌, Bool, ◌&&◌, ◌||◌,
  ◌==◌, eq→==, ne→==_false, ℕ_discrete, arith,
}
use conftron.Handlers.{Glib, Lcm}
use conftron.Handlers.Inv.{count}
use conftron.Handlers.Calls.{marked}

abbrev pub is_listed : ℕ → List ℕ → Bool
is_listed k [] = false
is_listed k (h ∷ hs) = if k == h then true else is_listed k hs

module _ (glib : Glib) where
  open glib use {Arr, Table, Pattern}

  -- How often a subscription is taken off a list: as often as it stands among those of the message, if it
  -- is marked for deletion.
  abbrev pub taken_off : List ℕ → Lcm Arr Table Pattern → ℕ → ℕ
  taken_off hs lcm k = if (lcm.subscriptions k).marked_for_deletion then count k hs else 0

  module _ (handler : ℕ → Lcm Arr Table Pattern → Lcm Arr Table Pattern) (channel : List ℕ) where
    pub count-marked :
        (lcm : Lcm Arr Table Pattern) (hs found : List ℕ) (k : ℕ)
        → count k (marked glib handler channel lcm hs found) ≡ taken_off hs lcm k + count k found
    count-marked lcm [] found k = nothing (lcm.subscriptions k).marked_for_deletion
      where
        nothing : (b : Bool) → count k found ≡ (if b then 0 else 0) + count k found
        nothing true = omega arith
        nothing false = omega arith
    count-marked lcm (h ∷ hs) found k =
        count-marked lcm hs (if (lcm.subscriptions h).marked_for_deletion then h ∷ found else found)
          k
        ∙ counted (ℕ_discrete k h)
      where
        equal :
            (b : Bool)
            → (if b then count k hs else 0) + count k (if b then h ∷ found else found)
              ≡ (if b then count k (h ∷ hs) else 0) + count k found
        equal true = ground arith
        equal false = refl

        other :
            (b c : Bool)
            → (k == h) ≡ false
            → (if b then count k hs else 0) + count k (if c then h ∷ found else found)
              ≡ (if b then count k (h ∷ hs) else 0) + count k found
        other true true e = rw e refl
        other true false e = rw e refl
        other false true e = rw e refl
        other false false e = refl

        counted :
            Dec (k ≡ h)
            → taken_off hs lcm k
                + count k (if (lcm.subscriptions h).marked_for_deletion then h ∷ found else found)
              ≡ taken_off (h ∷ hs) lcm k + count k found
        counted (yes e) =
            subst
              (λ b.
                (if (lcm.subscriptions k).marked_for_deletion then count k hs else 0)
                  + count k (if b then h ∷ found else found)
                ≡ taken_off (h ∷ hs) lcm k + count k found)
              (ap (λ x. (lcm.subscriptions x).marked_for_deletion) e)
              (equal (lcm.subscriptions k).marked_for_deletion)
        counted (no n) =
            other (lcm.subscriptions k).marked_for_deletion
              (lcm.subscriptions h).marked_for_deletion (ne→==_false k h n)

    pub is_listed-marked :
        (lcm : Lcm Arr Table Pattern) (hs found : List ℕ) (k : ℕ)
        → is_listed k (marked glib handler channel lcm hs found)
          ≡ (is_listed k found || ((lcm.subscriptions k).marked_for_deletion && is_listed k hs))
    is_listed-marked lcm [] found k =
        nothing (is_listed k found) (lcm.subscriptions k).marked_for_deletion
      where
        nothing : (a b : Bool) → a ≡ (a || (b && false))
        nothing true b = refl
        nothing false true = refl
        nothing false false = refl
    is_listed-marked lcm (h ∷ hs) found k =
        is_listed-marked lcm hs
          (if (lcm.subscriptions h).marked_for_deletion then h ∷ found else found) k
        ∙ listed (ℕ_discrete k h)
      where
        equal :
            (b f l : Bool)
            → (k == h) ≡ true
            → (is_listed k (if b then h ∷ found else found) || (b && l))
              ≡ (is_listed k found || (b && is_listed k (h ∷ hs)))
        equal true f l e = rw e (or_true (is_listed k found))
          where
            or_true : (a : Bool) → true ≡ (a || true)
            or_true true = refl
            or_true false = refl
        equal false f l e = refl

        other :
            (b c : Bool)
            → (k == h) ≡ false
            → (is_listed k (if c then h ∷ found else found) || (b && is_listed k hs))
              ≡ (is_listed k found || (b && is_listed k (h ∷ hs)))
        other b true e = rw e refl
        other b false e = rw e refl

        listed :
            Dec (k ≡ h)
            → (is_listed k (if (lcm.subscriptions h).marked_for_deletion then h ∷ found else found)
                || ((lcm.subscriptions k).marked_for_deletion && is_listed k hs))
              ≡ (is_listed k found
                  || ((lcm.subscriptions k).marked_for_deletion && is_listed k (h ∷ hs)))
        listed (yes e) =
            subst
              (λ b.
                (is_listed k (if b then h ∷ found else found)
                  || ((lcm.subscriptions k).marked_for_deletion && is_listed k hs))
                ≡ (is_listed k found
                    || ((lcm.subscriptions k).marked_for_deletion && is_listed k (h ∷ hs))))
              (ap (λ x. (lcm.subscriptions x).marked_for_deletion) e)
              (equal (lcm.subscriptions k).marked_for_deletion true (is_listed k hs) (eq→== k h e))
        listed (no n) =
            other (lcm.subscriptions k).marked_for_deletion
              (lcm.subscriptions h).marked_for_deletion (ne→==_false k h n)
