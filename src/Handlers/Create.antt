-- ===== src/Handlers/Create.antt =====
-- upstream/lcm/lcm.c: the URL of a network, and how lcm_create finds the provider for it.
use conftron.Base.{Option, none, some, List, [], ◌∷◌, if◌then◌else◌, ℤ, pos, minus_one}
use conftron.Lcmgen.Text.{Text, codes, streq}
use conftron.Handlers.Dispatch.{Vtable}

abbrev pub lcm_default_url : Text
lcm_default_url = codes "udpm://239.255.76.67:7667?ttl=1"

-- GLib's g_strsplit, whose vector is a list, and the table of the arguments.
pub record GlibText : Type 1 where
  pub g_strsplit : Text → Text → ℤ → List Text
  pub Table : Type 0
  pub new_table : Table
  pub replace : Table → Text → Text → Table

-- What a provider brings: its create and its other functions.
pub record Backend (World Provider Table : Type 0) : Type 0 where
  pub create : Option Text → Table → World → Option Provider × World
  pub vtable : Vtable Provider

-- lcm_provider_info_t
pub record ProviderInfo (World Provider Table : Type 0) : Type 0 where
  pub name : Text
  pub backend : Backend World Provider Table

-- What lcm_create makes: the functions of the provider, and the provider.
pub record Opened (Provider : Type 0) : Type 0 where
  pub vtable : Vtable Provider
  pub provider : Provider

-- What lcm_parse_url sets when it returns 0: the provider, the network, which may be NULL, and the
-- arguments.
abbrev pub Parts : Type 0 → Type 0
Parts Table = Text × Option Text × Table

module _ (glib : GlibText) where
  open glib use {g_strsplit, Table, new_table, replace}

  -- One argument; a key without value has the empty one, and an empty key is passed over.
  abbrev pub add_arg : List Text → Table → Table
  add_arg [] args = args
  add_arg ([] ∷ rest) args = args
  add_arg ((c ∷ key) ∷ []) args = replace args (c ∷ key) []
  add_arg ((c ∷ key) ∷ value ∷ rest) args = replace args (c ∷ key) value

  abbrev pub parse_args : List Text → Table → Table
  parse_args [] args = args
  parse_args (s ∷ split_args) args =
      parse_args split_args (add_arg (g_strsplit s (codes "=") (pos 2)) args)

  -- network_args
  abbrev pub parse_network : Text → Table → List Text → Parts Table
  parse_network provider args [] = (provider, none, args)
  parse_network provider args (network ∷ []) = (provider, some network, args)
  parse_network provider args (network ∷ query ∷ rest) =
      (provider, some network, parse_args (g_strsplit query (codes "&") minus_one) args)

  -- provider_networkargs; the vector of a text that is not empty has an entry at least.
  abbrev pub parse_provider : Table → List Text → Option (Parts Table)
  parse_provider args [] = none
  parse_provider args (provider ∷ []) = none
  parse_provider args (provider ∷ networkargs ∷ rest) =
      some (parse_network provider args (g_strsplit networkargs (codes "?") (pos 2)))

  -- lcm_parse_url; the result -1, which sets nothing, is `none`.
  unfoldable pub lcm_parse_url : Option Text → Table → Option (Parts Table)
  lcm_parse_url none args = none
  lcm_parse_url (some []) args = none
  lcm_parse_url (some (c ∷ url)) args =
      parse_provider args (g_strsplit (c ∷ url) (codes "://") (pos 2))

  -- The environment and the default stand in for a URL that is NULL or empty.
  abbrev pub or_default : Option Text → Text → Text
  or_default none other = other
  or_default (some []) other = other
  or_default (some (c ∷ url)) other = c ∷ url

  module _ {World Provider : Type 0} where
    abbrev pub find_provider :
        List (ProviderInfo World Provider Table) → Text → Option (Backend World Provider Table)
    find_provider [] provider_str = none
    find_provider (pinfo ∷ providers) provider_str =
        if streq pinfo.name provider_str
        then some pinfo.backend
        else find_provider providers provider_str

    abbrev pub end_create :
        Backend World Provider Table → Option Provider × World → Option (Opened Provider) × World
    end_create backend (none, w) = (none, w)
    end_create backend (some provider, w) =
        (some (record { vtable = backend.vtable; provider = provider }), w)

    abbrev pub create_with :
        Option (Backend World Provider Table)
        → Option Text
        → Table
        → World
        → Option (Opened Provider) × World
    create_with none network args w = (none, w)
    create_with (some backend) network args w = end_create backend (backend.create network args w)

    abbrev pub create_parsed :
        List (ProviderInfo World Provider Table)
        → World
        → Option (Parts Table)
        → Option (Opened Provider) × World
    create_parsed providers w none = (none, w)
    create_parsed providers w (some (provider_str, network, args)) =
        create_with (find_provider providers provider_str) network args w

    -- The list of providers, as their three init functions fill it.
    abbrev pub provider_list :
        Backend World Provider Table
        → Backend World Provider Table
        → Backend World Provider Table
        → List (ProviderInfo World Provider Table)
    provider_list udpm logprov tcpq =
        record { name = codes "udpm"; backend = udpm }
        ∷ record { name = codes "file"; backend = logprov }
        ∷ record { name = codes "tcpq"; backend = tcpq }
        ∷ []

    -- lcm_create, with the URL and what getenv gives; NULL is `none`.
    unfoldable pub lcm_create :
        List (ProviderInfo World Provider Table)
        → Option Text
        → Option Text
        → World
        → Option (Opened Provider) × World
    unfolding lcm_parse_url
    lcm_create [] url env w = (none, w)
    lcm_create (pinfo ∷ providers) url env w =
        create_parsed (pinfo ∷ providers) w
          (lcm_parse_url (some (or_default url (or_default env lcm_default_url))) new_table)
