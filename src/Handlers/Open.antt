-- ===== src/Handlers/Open.antt =====
-- upstream/lcm/lcm.c: the provider that lcm_create chooses by the URL.
use conftron.Base.{◌≡◌, refl, ap, ◌∙◌, Option, none, some, List, [], ◌∷◌, ◌++◌, All, arith}
use conftron.Lcmgen.Text.{Text, codes}
use conftron.Handlers.Create.{
  GlibText, Backend, lcm_parse_url, or_default, find_provider, end_create, create_with,
  create_parsed, provider_list, lcm_create, lcm_default_url,
}
use conftron.Handlers.Url.{
  Without, SplitLaws, print_query, print_url, IsArg, add_args, network_of, lcm_parse_url-print_url,
}

module _ (glib : GlibText) (laws : SplitLaws glib) where
  open glib use {Table, new_table, replace}

  module _ {World Provider : Type 0} (udpm logprov tcpq : Backend World Provider Table) where
    -- The three providers under the names of their URLs.
    abbrev pub Named : Text → Backend World Provider Table → Type 0
    Named name backend =
        find_provider glib (provider_list glib udpm logprov tcpq) name ≡ some backend

    given_url :
        (provider rest : Text) (other : Text)
        → or_default glib (some (provider ++ (codes "://" ++ rest))) other
          ≡ provider ++ (codes "://" ++ rest)
    given_url [] rest other = refl
    given_url (c ∷ provider) rest other = refl

    create_lem :
        (backend : Backend World Provider Table) (provider network : Text)
        (kvs : List (Text × Text)) (url env : Option Text) (w : World)
        → or_default glib url (or_default glib env lcm_default_url) ≡ print_url provider network kvs
        → Named provider backend
        → Without b':' provider
        → Without b'?' network
        → All IsArg kvs
        → lcm_create glib (provider_list glib udpm logprov tcpq) url env w
          ≡ end_create glib backend (
              backend.create
                (network_of glib laws network kvs)
                (add_args glib laws kvs new_table)
                w)
    unfolding lcm_create
    create_lem backend provider network kvs url env w e named p n h =
        ap
          (λ s.
            create_parsed glib (provider_list glib udpm logprov tcpq) w
              (lcm_parse_url glib (some s) new_table))
          e
        ∙ (ap (create_parsed glib (provider_list glib udpm logprov tcpq) w)
              (lcm_parse_url-print_url glib laws provider network kvs new_table p n h)
            ∙ ap
                (λ o.
                  create_with glib o (network_of glib laws network kvs)
                    (add_args glib laws kvs new_table) w)
                named)

    abbrev IsUnset : Option Text → Type 0
    IsUnset none = Unit
    IsUnset (some []) = Unit
    IsUnset (some (c ∷ s)) = ⊥

    or_default_unset :
        (o : Option Text) (other : Text) → IsUnset o → or_default glib o other ≡ other
    or_default_unset none other h = refl
    or_default_unset (some []) other h = refl
    or_default_unset (some (c ∷ s)) other h = absurd h

    -- The URL is the one of the call, or where that is NULL or empty, LCM_DEFAULT_URL of the environment.
    pub data Given (text : Text) : Option Text → Option Text → Type 0 where
      by_call : (env : Option Text) → Given text (some text) env
      by_environment : (url : Option Text) → IsUnset url → Given text url (some text)

    chosen :
        (name rest : Text) (url env : Option Text)
        → Given (name ++ (codes "://" ++ rest)) url env
        → or_default glib url (or_default glib env lcm_default_url) ≡ name ++ (codes "://" ++ rest)
    chosen name rest url env (by_call e) = given_url name rest _
    chosen name rest url env (by_environment u h) =
        or_default_unset u _ h ∙ given_url name rest lcm_default_url

    -- The name of a URL and the provider that it stands for.
    pub data Scheme : Text → Backend World Provider Table → Type 0 where
      multicast : Scheme (codes "udpm") udpm
      log_file : Scheme (codes "file") logprov
      relay : Scheme (codes "tcpq") tcpq

    Scheme-Named :
        (name : Text) (backend : Backend World Provider Table)
        → Scheme name backend
        → Named name backend × Without b':' name
    Scheme-Named name backend multicast = (refl, omega arith)
    Scheme-Named name backend log_file = (refl, omega arith)
    Scheme-Named name backend relay = (refl, omega arith)

    -- With a URL made of the name of a provider, a network and arguments, which is that of the call or,
    -- where this is NULL or empty, of the environment, lcm_create calls the create function of that
    -- provider with the network and the arguments, and gives its functions and what it made, or NULL if
    -- it made nothing; if the network has no question mark, the keys are not empty and have no = and no
    -- &, and the values no &.
    pub lcm_create-print_url :
        (name : Text) (backend : Backend World Provider Table) (network : Text)
        (kvs : List (Text × Text)) (url env : Option Text) (w : World)
        → Scheme name backend
        → Given (print_url name network kvs) url env
        → Without b'?' network
        → All IsArg kvs
        → lcm_create glib (provider_list glib udpm logprov tcpq) url env w
          ≡ end_create glib backend (
              backend.create
                (network_of glib laws network kvs)
                (add_args glib laws kvs new_table)
                w)
    lcm_create-print_url name backend network kvs url env w scheme given n h =
        let (named, p) = Scheme-Named name backend scheme in
        create_lem backend name network kvs url env w
          (chosen name (network ++ print_query kvs) url env given) named p n h

    -- Without a URL in the call and in the environment it is the multicast provider with the group
    -- 239.255.76.67:7667 and a time to live of 1.
    pub lcm_create_default :
        (url env : Option Text) (w : World)
        → IsUnset url
        → IsUnset env
        → lcm_create glib (provider_list glib udpm logprov tcpq) url env w
          ≡ end_create glib udpm (
              udpm.create
                (some (codes "239.255.76.67:7667"))
                (replace new_table (codes "ttl") (codes "1"))
                w)
    lcm_create_default url env w u e =
        create_lem udpm (codes "udpm") (codes "239.255.76.67:7667") ((codes "ttl", codes "1") ∷ [])
          url env w (or_default_unset url _ u ∙ or_default_unset env lcm_default_url e) refl
          (omega arith) (omega arith) (((λ q. cc (q)), omega arith, omega arith, omega arith), tt)
