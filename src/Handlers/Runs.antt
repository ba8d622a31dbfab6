-- ===== src/Handlers/Runs.antt =====
-- Arrays that are lists and a table that is a function, and the theorems for two subscriptions.
use conftron.Base.{
  ℕ, ◌+◌, ◌>>=◌, ◌≡◌, refl, sym, ap, ap₂, ◌∙◌, Bool, true, false, Option, none, some, List, [], ◌∷◌,
  ◌++◌, if◌then◌else◌, ◌==◌, arith, eq→==, ne→==_false, ℕ_discrete, ◌⊎◌, inl, inr,
}
use conftron.Handlers.{Glib, Lcm, lcm_subscribe, lcm_unsubscribe, lcm_get_handlers}
use conftron.Handlers.Dispatch.{State, lcm_dispatch_handlers}
use conftron.Handlers.Dispatched.{Scheduled, Calls, Cleaned, lcm_dispatch_handlers-Cleaned}
use conftron.Handlers.History.{
  Reachable, created, subscribes, unsubscribes, gets_handlers, Reachable-lcm_get_handlers,
}
use conftron.Handlers.Destroy.{lcm_destroy}
use conftron.Handlers.Inv.{count, one_less, Laws, expected, IsConsistent}

abbrev same : List ℕ → List ℕ → Bool
same [] [] = true
same [] (d ∷ ds) = false
same (c ∷ cs) [] = false
same (c ∷ cs) (d ∷ ds) = if c == d then same cs ds else false

same_lem : (cs ds : List ℕ) → same cs ds ≡ true → cs ≡ ds
same_lem [] [] h = refl
same_lem [] (d ∷ ds) h = cc h
same_lem (c ∷ cs) [] h = cc h
same_lem (c ∷ cs) (d ∷ ds) h = elim (ℕ_discrete c d) [
  | yes e ↦
      ap₂ (λ x xs. x ∷ xs) e
        (same_lem cs ds (ap (λ t. if t then same cs ds else false) (sym (eq→== c d e)) ∙ h))
  | no e ↦ cc (sym (ap (λ t. if t then same cs ds else false) (ne→==_false c d e)) ∙ h)
]

same_refl : (cs : List ℕ) → same cs cs ≡ true
same_refl [] = refl
same_refl (c ∷ cs) = ap (λ t. if t then same cs cs else false) (eq→== c c refl) ∙ same_refl cs

abbrev keep : ℕ → Bool × List ℕ → Bool × List ℕ
keep k (b, rest) = (b, k ∷ rest)

abbrev remove_first : List ℕ → ℕ → Bool × List ℕ
remove_first [] h = (false, [])
remove_first (k ∷ xs) h = if k == h then (true, xs) else keep k (remove_first xs h)

count-remove_first :
    (xs : List ℕ) (h k : ℕ) → count k (remove_first xs h).1 ≡ one_less k h (count k xs)
count-remove_first [] h k = ground arith
count-remove_first (x ∷ xs) h k = ground (arith, count-remove_first xs h k)

remove_first_found : (xs : List ℕ) (h : ℕ) → (remove_first xs h).0 ≡ false → count h xs ≡ 0
remove_first_found [] h e = refl
remove_first_found (x ∷ xs) h e = ground (arith, remove_first_found xs h, e)

abbrev changed : (List ℕ → List ℕ) → Option (List ℕ) → Option (List ℕ)
changed f none = none
changed f (some a) = some (f a)

changed_lem :
    (f : List ℕ → List ℕ) (o : Option (List ℕ)) (a : List ℕ)
    → changed f o ≡ some a
    → (b : List ℕ) × (o ≡ some b) × (a ≡ f b)
changed_lem f none a e = cc e
changed_lem f (some b) a e = (b, refl, cc e)

inserted_lem :
    (c d a b : List ℕ) (o : Option (List ℕ)) (m : Bool)
    → (m ≡ true → d ≡ c)
    → (if m then some a else o) ≡ some b
    → ((d ≡ c) × (b ≡ a)) ⊎ (o ≡ some b)
inserted_lem c d a b o true sound e = inl (sound refl, cc e)
inserted_lem c d a b o false sound e = inr e

-- A pattern is matched by the channels that begin with its number.
abbrev begins : ℕ → List ℕ → Bool
begins p [] = false
begins p (c ∷ cs) = p == c

abbrev lists : Glib
lists = record {
  Arr = List ℕ;
  empty = [];
  items = λ a. a;
  add = λ a h. a ++ (h ∷ []);
  remove = remove_first;
  remove_fast = λ a h. (remove_first a h).1;
  Table = List ℕ → Option (List ℕ);
  lookup = λ t c. t c;
  insert = λ t c a d. if same d c then some a else t d;
  foreach = λ f t c. changed (f c) (t c);
  Pattern = ℕ;
  regex_match = begins;
}

lists-Laws : Laws lists
lists-Laws = record {
  items-empty = refl;
  items-add = λ a h. refl;
  count-remove_fast = count-remove_first;
  count-remove = count-remove_first;
  remove_found = remove_first_found;
  lookup-foreach = λ f t c a e. changed_lem (f c) (t c) a e;
  lookup-insert = λ t c d a b e. inserted_lem c d a b (t d) (same d c) (same_lem d c) e;
  lookup-insert_self = λ t c a. ap (λ b. if b then some a else t c) (same_refl c);
}

-- Subscription 5 stands for the channels that begin with 84.
abbrev telemetry_only : Lcm (List ℕ) (List ℕ → Option (List ℕ)) ℕ
telemetry_only = record {
  handlers_all = 5 ∷ [];
  handlers_map = λ c. none;
  subscriptions = λ h. record {
    regex = 84;
    callback_scheduled = false;
    marked_for_deletion = false;
    freed = false;
  };
}

-- Subscription 5 stays, 6 comes and goes, and one channel has been asked for.
abbrev nobody : Lcm (List ℕ) (List ℕ → Option (List ℕ)) ℕ
nobody = record telemetry_only { handlers_all = [] }

abbrev subscribed : Lcm (List ℕ) (List ℕ → Option (List ℕ)) ℕ
subscribed = (lcm_subscribe lists nobody 5 true (some 84)).1

abbrev asked : Lcm (List ℕ) (List ℕ → Option (List ℕ)) ℕ
asked = (lcm_get_handlers lists subscribed (84 ∷ 77 ∷ [])).1

abbrev two_subscribed : Lcm (List ℕ) (List ℕ → Option (List ℕ)) ℕ
two_subscribed = (lcm_subscribe lists asked 6 true (some 84)).1

abbrev one_left : Lcm (List ℕ) (List ℕ → Option (List ℕ)) ℕ
one_left = (lcm_unsubscribe lists two_subscribed 6).1

one_left-Reachable : Reachable lists one_left
unfolding lcm_subscribe lcm_get_handlers
one_left-Reachable = unsubscribes two_subscribed 6 (
    subscribes asked 6 true (some 84) refl (
      gets_handlers subscribed (84 ∷ 77 ∷ [])
        (subscribes nobody 5 true (some 84) refl (created nobody refl (λ channel. refl)))))

Reachable-lcm_get_handlers_example :
    IsConsistent lists one_left
    × ((h : ℕ)
        → count h (lcm_get_handlers lists one_left (84 ∷ 77 ∷ [])).0
          ≡ expected lists one_left (84 ∷ 77 ∷ []) h)
Reachable-lcm_get_handlers_example =
    Reachable-lcm_get_handlers lists lists-Laws one_left (84 ∷ 77 ∷ []) one_left-Reachable

-- The handlers that are left on the list of all after a message.
abbrev all_left : Option (Lcm (List ℕ) (List ℕ → Option (List ℕ)) ℕ) → Option (List ℕ)
all_left o = o >>= λ lcm. some lcm.handlers_all

-- A handler that leaves the subscriptions alone is called and stays.
quiet_run :
    all_left (lcm_dispatch_handlers lists (λ h lcm. lcm) telemetry_only (84 ∷ 77 ∷ []))
    ≡ some (5 ∷ [])
unfolding lcm_dispatch_handlers lcm_get_handlers
quiet_run = refl

-- After a handler that unsubscribes itself the array of the channel is read behind its end.
unsubscribe_run :
    all_left (
      lcm_dispatch_handlers lists
        (λ h lcm. (lcm_unsubscribe lists lcm h).1)
        telemetry_only
        (84 ∷ 77 ∷ []))
    ≡ none
unfolding lcm_dispatch_handlers lcm_get_handlers lcm_unsubscribe
unsubscribe_run = refl

-- A handler that subscribes 9 to every channel.
abbrev adds_nine : ℕ → State lists (λ h lcm. lcm) → State lists (λ h lcm. lcm)
adds_nine h lcm = record lcm {
  handlers_map = λ c. changed (λ a. a ++ (9 ∷ [])) (lcm.handlers_map c);
}

lcm_dispatch_handlers-Cleaned_example :
    let (handlers, lcm1) = lcm_get_handlers lists telemetry_only (84 ∷ 77 ∷ []) in
    (lcm2 : State lists adds_nine) × (lcm3 : State lists adds_nine) × (lcm4 : State lists adds_nine)
    × (lcm_dispatch_handlers lists adds_nine telemetry_only (84 ∷ 77 ∷ []) ≡ some lcm4)
    × Scheduled lists handlers lcm1 lcm2
    × Calls lists adds_nine handlers lcm2 lcm3
    × Cleaned lists handlers lcm3 lcm4
lcm_dispatch_handlers-Cleaned_example =
    lcm_dispatch_handlers-Cleaned lists adds_nine (84 ∷ 77 ∷ []) lists-Laws
      (λ f t c a e. (f c a, ap (changed (f c)) e))
      (λ h lcm. record {
        added =
            λ handlers e. (handlers ++ (9 ∷ []), 9 ∷ [], ap (changed (λ a. a ++ (9 ∷ []))) e, refl);
      })
      telemetry_only

-- lcm_destroy frees the subscription that is left, and calls the provider once.
destroy_run :
    let (subscriptions, w) = lcm_destroy lists (λ (p w : ℕ). w + p) (some 1) one_left 3 in
    ((subscriptions 5).freed ≡ true) × (w ≡ 4)
unfolding lcm_destroy lcm_unsubscribe lcm_subscribe lcm_get_handlers
destroy_run = (refl, refl)
