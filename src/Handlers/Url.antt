-- ===== src/Handlers/Url.antt =====
-- upstream/lcm/lcm.c: the URL that names a provider, a network and arguments, read back, and the
-- provider that lcm_create chooses by it.
use conftron.Base.{
  ℕ, ◌≡◌, ◌≢◌, refl, ap, ◌∙◌, Option, none, some, List, [], ◌∷◌, ◌++◌, All, ℤ, pos, minus_one,
  append-nil, arith,
}
use conftron.Lcmgen.Text.{Text, codes}
use conftron.Handlers.Create.{
  GlibText, add_arg, parse_args, parse_network, parse_provider, lcm_parse_url,
}

-- No character of the text starts the delimiter.
abbrev pub Without : ℕ → Text → Type 0
Without c s = All (λ x. x ≢ c) s

-- What g_strsplit does: it splits at the first delimiter, once, or on and on at one of one character; a
-- text without delimiter is one entry, and the empty text none.
pub record SplitLaws (glib : GlibText) : Type 0 where
  pub split_once :
      (a b delimiter : Text) (c : ℕ)
      → Without c a
      → glib.g_strsplit (a ++ ((c ∷ delimiter) ++ b)) (c ∷ delimiter) (pos 2) ≡ a ∷ b ∷ []
  pub split_all :
      (a b : Text) (c : ℕ)
      → Without c a
      → b ≢ []
      → glib.g_strsplit (a ++ (c ∷ b)) (c ∷ []) minus_one ≡ a ∷ glib.g_strsplit b (c ∷ []) minus_one
  pub split_none :
      (a delimiter : Text) (c : ℕ) (max_tokens : ℤ)
      → a ≢ []
      → Without c a
      → glib.g_strsplit a (c ∷ delimiter) max_tokens ≡ a ∷ []
  pub split_empty :
      (delimiter : Text) (max_tokens : ℤ) → glib.g_strsplit [] delimiter max_tokens ≡ []

-- A key with a value.
abbrev pub print_arg : Text × Text → Text
print_arg (key, value) = key ++ (codes "=" ++ value)

abbrev pub print_args : Text × Text → List (Text × Text) → Text
print_args kv [] = print_arg kv
print_args kv (next ∷ rest) = print_arg kv ++ (codes "&" ++ print_args next rest)

abbrev pub print_query : List (Text × Text) → Text
print_query [] = []
print_query (kv ∷ rest) = codes "?" ++ print_args kv rest

abbrev pub print_url : Text → Text → List (Text × Text) → Text
print_url provider network args = provider ++ (codes "://" ++ (network ++ print_query args))

abbrev pub IsArg : Text × Text → Type 0
IsArg (key, value) = (key ≢ []) × Without b'=' key × Without b'&' key × Without b'&' value

Without-append : (c : ℕ) (s t : Text) → Without c s → Without c t → Without c (s ++ t)
Without-append c [] t h k = k
Without-append c (x ∷ s) t h k = (h.0, Without-append c s t h.1 k)

module _ (glib : GlibText) (laws : SplitLaws glib) where
  open glib use {g_strsplit, Table, new_table, replace}

  abbrev pub add_args : List (Text × Text) → Table → Table
  add_args [] args = args
  add_args ((key, value) ∷ rest) args = add_args rest (replace args key value)

  -- The network of a URL that ends behind its provider is NULL.
  abbrev pub network_of : Text → List (Text × Text) → Option Text
  network_of [] [] = none
  network_of [] (kv ∷ rest) = some []
  network_of (c ∷ network) args = some (c ∷ network)

  add_arg-print_arg :
      (kv : Text × Text) (args : Table)
      → IsArg kv
      → add_arg glib (g_strsplit (print_arg kv) (codes "=") (pos 2)) args ≡ replace args kv.0 kv.1
  add_arg-print_arg ([], value) args h = absurd (h.0 refl)
  add_arg-print_arg (c ∷ key, value) args h =
      ap (λ v. add_arg glib v args) (laws.split_once (c ∷ key) value [] b'=' h.1)

  print_arg-Without : (kv : Text × Text) → IsArg kv → Without b'&' (print_arg kv)
  print_arg-Without (key, value) h =
      Without-append b'&' key (codes "=" ++ value) h.2 ((λ e. omega (arith, e)), h.3)

  print_arg_ne : (kv : Text × Text) → IsArg kv → print_arg kv ≢ []
  print_arg_ne ([], value) h e = h.0 refl
  print_arg_ne (c ∷ key, value) h e = cc (e)

  print_args_ne :
      (kv : Text × Text) (rest : List (Text × Text)) → IsArg kv → print_args kv rest ≢ []
  print_args_ne kv [] h e = print_arg_ne kv h e
  print_args_ne ([], value) (next ∷ rest) h e = h.0 refl
  print_args_ne (c ∷ key, value) (next ∷ rest) h e = cc (e)

  parse_args-print_args :
      (kv : Text × Text) (rest : List (Text × Text)) (args : Table)
      → All IsArg (kv ∷ rest)
      → parse_args glib (g_strsplit (print_args kv rest) (codes "&") minus_one) args
        ≡ add_args (kv ∷ rest) args
  parse_args-print_args kv [] args h =
      ap (λ v. parse_args glib v args)
        (laws.split_none (print_arg kv) [] b'&' minus_one (print_arg_ne kv h.0)
          (print_arg-Without kv h.0))
      ∙ add_arg-print_arg kv args h.0
  parse_args-print_args kv (next ∷ rest) args h =
      ap (λ v. parse_args glib v args)
        (laws.split_all (print_arg kv) (print_args next rest) b'&' (print_arg-Without kv h.0)
          (print_args_ne next rest h.1.0))
      ∙ (ap (parse_args glib (g_strsplit (print_args next rest) (codes "&") minus_one))
            (add_arg-print_arg kv args h.0)
          ∙ parse_args-print_args next rest (replace args kv.0 kv.1) h.1)

  parse_network-print_query :
      (provider network : Text) (kvs : List (Text × Text)) (args : Table)
      → Without b'?' network
      → All IsArg kvs
      → parse_network glib provider args
          (g_strsplit (network ++ print_query kvs) (codes "?") (pos 2))
        ≡ (provider, network_of network kvs, add_args kvs args)
  parse_network-print_query provider [] [] args n h =
      ap (parse_network glib provider args) (laws.split_empty (codes "?") (pos 2))
  parse_network-print_query provider (c ∷ network) [] args n h =
      ap (λ s. parse_network glib provider args (g_strsplit s (codes "?") (pos 2)))
        (append-nil (c ∷ network))
      ∙ ap (parse_network glib provider args)
          (laws.split_none (c ∷ network) [] b'?' (pos 2) (λ e. cc (e)) n)
  parse_network-print_query provider network (kv ∷ rest) args n h =
      ap (parse_network glib provider args) (laws.split_once network (print_args kv rest) [] b'?' n)
      ∙ ap (λ t. (provider, some network, t)) (parse_args-print_args kv rest args h)
      ∙ ap (λ o. (provider, o, add_args (kv ∷ rest) args)) (given network)
    where
      given : (s : Text) → some s ≡ network_of s (kv ∷ rest)
      given [] = refl
      given (c ∷ s) = refl

  unfold_url :
      (provider rest : Text) (args : Table)
      → Without b':' provider
      → lcm_parse_url glib (some (provider ++ (codes "://" ++ rest))) args
        ≡ some (parse_network glib provider args (g_strsplit rest (codes "?") (pos 2)))
  unfolding lcm_parse_url
  unfold_url [] rest args h =
      ap (parse_provider glib args) (laws.split_once [] rest (codes "//") b':' h)
  unfold_url (c ∷ provider) rest args h =
      ap (parse_provider glib args) (laws.split_once (c ∷ provider) rest (codes "//") b':' h)

  -- lcm_parse_url reads back a URL made of a provider, a network and arguments, and puts the arguments
  -- into the table in their order, if the provider has no colon, the network no question mark, the
  -- keys are not empty and have no = and no &, and the values no &. A network that is empty and has no
  -- arguments behind it is NULL.
  pub lcm_parse_url-print_url :
      (provider network : Text) (kvs : List (Text × Text)) (args : Table)
      → Without b':' provider
      → Without b'?' network
      → All IsArg kvs
      → lcm_parse_url glib (some (print_url provider network kvs)) args
        ≡ some (provider, network_of network kvs, add_args kvs args)
  lcm_parse_url-print_url provider network kvs args p n h =
      unfold_url provider (network ++ print_query kvs) args p
      ∙ ap (λ x. some x) (parse_network-print_query provider network kvs args n h)
