-- ===== src/Handlers/UrlRuns.antt =====
-- A g_strsplit that has the laws, and runs of lcm_parse_url and lcm_create.
use conftron.Base.{
  ℕ, ◌≡◌, ◌≢◌, refl, ap, Option, none, some, List, [], ◌∷◌, ◌++◌, ℤ, pos, negsuc, minus_one,
  if◌then◌else◌, ◌==◌, arith, eq→==, ne→==_false,
}
use conftron.Lcmgen.Text.{Text, codes}
use conftron.Handlers.Create.{
  GlibText, Backend, provider_list, lcm_parse_url, lcm_create, end_create,
}
use conftron.Handlers.Url.{Without, SplitLaws, print_url, add_args, lcm_parse_url-print_url}
use conftron.Handlers.Open.{by_call, log_file, lcm_create-print_url}

abbrev strip : Text → Text → Option Text
strip [] s = some s
strip (d ∷ ds) [] = none
strip (d ∷ ds) (x ∷ s) = if x == d then strip ds s else none

abbrev behind : ℕ → Option (Text × Text) → Option (Text × Text)
behind x none = none
behind x (some (a, b)) = some (x ∷ a, b)

abbrev first_of : Option Text → Option (Text × Text) → Option (Text × Text)
first_of (some b) later = some ([], b)
first_of none later = later

-- The text before and behind the first delimiter.
abbrev cut : Text → Text → Option (Text × Text)
cut d [] = none
cut d (x ∷ s) = first_of (strip d (x ∷ s)) (behind x (cut d s))

abbrev halves : Text → Option (Text × Text) → List Text
halves s none = s ∷ []
halves s (some (a, b)) = a ∷ b ∷ []

abbrev onto : ℕ → List Text → List Text
onto x [] = []
onto x (s ∷ rest) = (x ∷ s) ∷ rest

abbrev fields : ℕ → Text → List Text
fields c [] = [] ∷ []
fields c (x ∷ s) = if x == c then [] ∷ fields c s else onto x (fields c s)

abbrev g_strsplit : Text → Text → ℤ → List Text
g_strsplit [] d n = []
g_strsplit (x ∷ s) (c ∷ []) (negsuc n) = fields c (x ∷ s)
g_strsplit (x ∷ s) d n = halves (x ∷ s) (cut d (x ∷ s))

strip_lem : (d b : Text) → strip d (d ++ b) ≡ some b
strip_lem [] b = refl
strip_lem (c ∷ d) b = rw (eq→== c c refl) (strip_lem d b)

cut_once : (a b d : Text) (c : ℕ) → Without c a → cut (c ∷ d) (a ++ ((c ∷ d) ++ b)) ≡ some (a, b)
cut_once [] b d c h =
    rw (eq→== c c refl) (ap (λ o. first_of o (behind c (cut (c ∷ d) (d ++ b)))) (strip_lem d b))
cut_once (x ∷ a) b d c h = rw (ne→==_false x c h.0) (ap (behind x) (cut_once a b d c h.1))

cut-none : (a d : Text) (c : ℕ) → Without c a → cut (c ∷ d) a ≡ none
cut-none [] d c h = refl
cut-none (x ∷ a) d c h = rw (ne→==_false x c h.0) (ap (behind x) (cut-none a d c h.1))

fields_none : (a : Text) (c : ℕ) → Without c a → fields c a ≡ a ∷ []
fields_none [] c h = refl
fields_none (x ∷ a) c h = rw (ne→==_false x c h.0) (ap (onto x) (fields_none a c h.1))

fields-append : (a b : Text) (c : ℕ) → Without c a → fields c (a ++ (c ∷ b)) ≡ a ∷ fields c b
fields-append [] b c h = rw (eq→== c c refl) refl
fields-append (x ∷ a) b c h = rw (ne→==_false x c h.0) (ap (onto x) (fields-append a b c h.1))

split_once :
    (a b d : Text) (c : ℕ)
    → Without c a
    → g_strsplit (a ++ ((c ∷ d) ++ b)) (c ∷ d) (pos 2) ≡ a ∷ b ∷ []
split_once [] b [] c h = ap (halves _) (cut_once [] b [] c h)
split_once [] b (y ∷ d) c h = ap (halves _) (cut_once [] b (y ∷ d) c h)
split_once (x ∷ a) b [] c h = ap (halves _) (cut_once (x ∷ a) b [] c h)
split_once (x ∷ a) b (y ∷ d) c h = ap (halves _) (cut_once (x ∷ a) b (y ∷ d) c h)

split_all :
    (a b : Text) (c : ℕ)
    → Without c a
    → b ≢ []
    → g_strsplit (a ++ (c ∷ b)) (c ∷ []) minus_one ≡ a ∷ g_strsplit b (c ∷ []) minus_one
split_all a [] c h k = absurd (k refl)
split_all [] (y ∷ b) c h k = fields-append [] (y ∷ b) c h
split_all (x ∷ a) (y ∷ b) c h k = fields-append (x ∷ a) (y ∷ b) c h

split_none : (a d : Text) (c : ℕ) (n : ℤ) → a ≢ [] → Without c a → g_strsplit a (c ∷ d) n ≡ a ∷ []
split_none [] d c n k h = absurd (k refl)
split_none (x ∷ a) [] c (negsuc n) k h = fields_none (x ∷ a) c h
split_none (x ∷ a) [] c (pos n) k h = ap (halves (x ∷ a)) (cut-none (x ∷ a) [] c h)
split_none (x ∷ a) (y ∷ d) c (negsuc n) k h = ap (halves (x ∷ a)) (cut-none (x ∷ a) (y ∷ d) c h)
split_none (x ∷ a) (y ∷ d) c (pos n) k h = ap (halves (x ∷ a)) (cut-none (x ∷ a) (y ∷ d) c h)

-- The table is the list of what was put into it, the last in front.
abbrev pub glib : GlibText
glib = record {
  g_strsplit = g_strsplit;
  Table = List (Text × Text);
  new_table = [];
  replace = λ args key value. (key, value) ∷ args;
}

laws : SplitLaws glib
laws = record {
  split_once = split_once;
  split_all = split_all;
  split_none = split_none;
  split_empty = λ d n. refl;
}

-- A provider is the network and the arguments that it was made with.
abbrev backend : ℕ → Backend ℕ (ℕ × Option Text × List (Text × Text)) (List (Text × Text))
backend k = record {
  create = λ network args w. (some (k, network, args), w);
  vtable = record { handle = none; get_fileno = none; publish = none };
}

abbrev args : List (Text × Text)
args = (codes "speed", codes "2") ∷ (codes "mode", []) ∷ []

no_delimiter_runs : lcm_parse_url glib (some (codes "udpm:239")) [] ≡ none
unfolding lcm_parse_url
no_delimiter_runs = refl

-- A value may have an equals sign, and an argument no value.
arguments_run :
    lcm_parse_url glib (some (codes "file://log?a=b=c&&mode")) []
    ≡ some (codes "file", some (codes "log"), (codes "mode", []) ∷ (codes "a", codes "b=c") ∷ [])
unfolding lcm_parse_url
arguments_run = refl

lcm_parse_url-print_url_example :
    lcm_parse_url glib (some (print_url (codes "file") (codes "log") args)) []
    ≡ some (codes "file", some (codes "log"), add_args glib laws args [])
lcm_parse_url-print_url_example =
    lcm_parse_url-print_url glib laws (codes "file") (codes "log") args [] (omega arith)
      (omega arith)
      ((
        ((λ q. cc (q)), omega arith, omega arith, omega arith),
        (((λ q. cc (q)), omega arith, omega arith, tt), tt),
      ))

lcm_create-print_url_example :
    lcm_create glib
      (provider_list glib (backend 0) (backend 1) (backend 2))
      (some (print_url (codes "file") (codes "log") args))
      none
      5
    ≡ end_create glib
        (backend 1)
        (some (1, some (codes "log"), (codes "mode", []) ∷ (codes "speed", codes "2") ∷ []), 5)
lcm_create-print_url_example =
    lcm_create-print_url glib laws (backend 0) (backend 1) (backend 2) (codes "file") (backend 1)
      (codes "log") args (some (print_url (codes "file") (codes "log") args)) none 5 log_file
      (by_call none) (omega arith)
      ((
        ((λ q. cc (q)), omega arith, omega arith, omega arith),
        (((λ q. cc (q)), omega arith, omega arith, tt), tt),
      ))
