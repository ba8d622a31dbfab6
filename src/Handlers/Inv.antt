-- ===== src/Handlers/Inv.antt =====
-- The lists of handlers that lcm.c keeps for the channels it has seen say who has subscribed.
pub mod Subscribe
pub mod Unsubscribe
use conftron.Base.{
  ℕ, suc, ◌+◌, ◌-◌, ◌≡◌, ◌≢◌, refl, sym, ap, ap₂, ◌∙◌, Bool, true, false, Option, none, some, List,
  [], ◌∷◌, ◌++◌, if◌then◌else◌, ◌==◌, arith, eq→==, ne→==_false, ℕ_discrete, Bool-cases, ◌⊎◌, inl,
  inr,
}
use conftron.Handlers.{
  Glib, Lcm, change, is_handler_subscriber, lcm_subscribe, retire, unlisted, lcm_unsubscribe,
  matching, found_or_made, lcm_get_handlers,
}

-- How often a subscription stands in a list.
abbrev pub count : ℕ → List ℕ → ℕ
count h [] = 0
count h (k ∷ rest) = if h == k then suc (count h rest) else count h rest

count-append : (h : ℕ) (xs ys : List ℕ) → count h (xs ++ ys) ≡ count h xs + count h ys
count-append h [] ys = omega arith
count-append h (k ∷ xs) ys = ground (arith, count-append h xs ys)

abbrev pub one_less : ℕ → ℕ → ℕ → ℕ
one_less k h n = if k == h then n - 1 else n

-- What lcm.c relies on of GLib's arrays and tables.
pub record Laws (glib : Glib) : Type 0 where
  pub items-empty : glib.items glib.empty ≡ []
  pub items-add : (a : glib.Arr) (h : ℕ) → glib.items (glib.add a h) ≡ glib.items a ++ (h ∷ [])
  pub count-remove_fast :
      (a : glib.Arr) (h k : ℕ)
      → count k (glib.items (glib.remove_fast a h)) ≡ one_less k h (count k (glib.items a))
  pub count-remove :
      (a : glib.Arr) (h k : ℕ)
      → count k (glib.items (glib.remove a h).1) ≡ one_less k h (count k (glib.items a))
  pub remove_found :
      (a : glib.Arr) (h : ℕ) → (glib.remove a h).0 ≡ false → count h (glib.items a) ≡ 0
  pub lookup-foreach :
      (f : List ℕ → glib.Arr → glib.Arr) (t : glib.Table) (c : List ℕ) (a : glib.Arr)
      → glib.lookup (glib.foreach f t) c ≡ some a
      → (b : glib.Arr) × (glib.lookup t c ≡ some b) × (a ≡ f c b)
  pub lookup-insert :
      (t : glib.Table) (c d : List ℕ) (a b : glib.Arr)
      → glib.lookup (glib.insert t c a) d ≡ some b
      → ((d ≡ c) × (b ≡ a)) ⊎ (glib.lookup t d ≡ some b)
  pub lookup-insert_self :
      (t : glib.Table) (c : List ℕ) (a : glib.Arr) → glib.lookup (glib.insert t c a) c ≡ some a

module _ (glib : Glib) where
  abbrev pub expected : Lcm glib.Arr glib.Table glib.Pattern → List ℕ → ℕ → ℕ
  expected lcm channel h =
      if is_handler_subscriber glib lcm h channel then count h (glib.items lcm.handlers_all) else 0

  -- The list of a channel that has one has each subscription that matches, as often as the list of all.
  unfoldable pub IsConsistent : Lcm glib.Arr glib.Table glib.Pattern → Type 0
  IsConsistent lcm =
      (channel : List ℕ) (handlers : glib.Arr) (h : ℕ)
      → glib.lookup lcm.handlers_map channel ≡ some handlers
      → count h (glib.items handlers) ≡ expected lcm channel h

  module _ (laws : Laws glib) (lcm : Lcm glib.Arr glib.Table glib.Pattern)
      (ok : IsConsistent lcm) where
    pub count-add :
        (a : glib.Arr) (k h : ℕ)
        → count h (glib.items (glib.add a k)) ≡ count h (glib.items a) + (if h == k then 1 else 0)
    count-add a k h = ap (count h) (laws.items-add a k) ∙ count-append h (glib.items a) (k ∷ [])

    count-matching :
        (channel : List ℕ) (xs : List ℕ) (a : glib.Arr) (h : ℕ)
        → count h (glib.items (matching glib lcm channel xs a))
          ≡ count h (glib.items a)
            + (if is_handler_subscriber glib lcm h channel then count h xs else 0)
    count-matching channel [] a h = ground arith
    count-matching channel (k ∷ xs) a h =
        elim (Bool-cases (is_handler_subscriber glib lcm k channel)) [
          | inl m ↦ elim (ℕ_discrete h k) [
            | yes e ↦
                rw (e, m, eq→== k k refl)
                  (count-matching channel xs (glib.add a k) k
                    ∙ rw m (ground (arith, count-add a k k, eq→== k k refl)))
            | no e ↦
                rw (m, ne→==_false h k e)
                  (count-matching channel xs (glib.add a k) h
                    ∙ ap
                        (λ n.
                          n + (if is_handler_subscriber glib lcm h channel then count h xs else 0))
                        (count-add a k h ∙ rw (ne→==_false h k e) (omega arith)))
          ]
          | inr m ↦ elim (ℕ_discrete h k) [
            | yes e ↦ rw (e, m) (count-matching channel xs a k ∙ rw m refl)
            | no e ↦ rw (m, ne→==_false h k e) (count-matching channel xs a h)
          ]
        ]

    found_or_made-IsConsistent :
        (channel : List ℕ) (o : Option glib.Arr) → IsConsistent (found_or_made glib lcm channel o).1
    unfolding IsConsistent
    found_or_made-IsConsistent channel (some handlers) c hs h found = ok c hs h found
    found_or_made-IsConsistent channel none c handlers h found =
        elim (laws.lookup-insert lcm.handlers_map channel c _ handlers found) [
          | inl (e, e') ↦
              rw (e, e')
                (count-matching channel (glib.items lcm.handlers_all) glib.empty h
                  ∙ rw laws.items-empty (ground arith))
          | inr old ↦ ok c handlers h old
        ]

    found_or_made_lem :
        (channel : List ℕ) (o : Option glib.Arr) (h : ℕ)
        → glib.lookup lcm.handlers_map channel ≡ o
        → count h (glib.items (found_or_made glib lcm channel o).0) ≡ expected lcm channel h
    unfolding IsConsistent
    found_or_made_lem channel (some handlers) h e = ok channel handlers h e
    found_or_made_lem channel none h e =
        count-matching channel (glib.items lcm.handlers_all) glib.empty h
        ∙ rw laws.items-empty (ground arith)

    -- Where the lists of the channels are consistent, they are so after lcm_get_handlers, which gives a
    -- list with each subscription that matches the channel, as often as it stands in the list of all.
    pub lcm_get_handlers-IsConsistent :
        (channel : List ℕ)
        → IsConsistent (lcm_get_handlers glib lcm channel).1
          × ((h : ℕ)
              → count h (glib.items (lcm_get_handlers glib lcm channel).0) ≡ expected lcm channel h)
    unfolding lcm_get_handlers
    lcm_get_handlers-IsConsistent channel =
        let o = glib.lookup lcm.handlers_map channel in
        (found_or_made-IsConsistent channel o, λ h. found_or_made_lem channel o h refl)
