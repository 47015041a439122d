-- ===== src/Registry/Chains/Reload.antt =====
-- What a reload of the configuration does to the chains.
use validator_health_check.Prelude.{
  ℕ, ◌≤◌, Bool, true, false, not, ◌||◌, ◌&&◌, List, [], ◌∷◌, Option, none, some, Text, Map, get,
  put, get-put, get-nil, is_some, Time, zero_time, pos, since-le, max_duration, map, All, any, ◌==◌,
  text_eq, if◌then◌else◌, arith, ◌≡◌, refl, Bool-cases, inl, inr,
}
use validator_health_check.Config.Users.{UsersConfig}
use validator_health_check.Config.Chains.{ChainConfig, ChainError, validate_chains}
use validator_health_check.Registry.Pauser.{Pauser, is_chain_paused}
use validator_health_check.Registry.Chains.{
  RegisteredChainConfig, ChainRegistry, no_chains, new_registered_chain_config, put_chain,
  put_chains, update_validated, update_chains_config, get_copy_all_chain_configs, has_chain,
}
use validator_health_check.Registry.Chains.Picks.{is_due}

-- A chain with this name is enabled.
abbrev pub is_enabled_in : Text → List ChainConfig → Bool
is_enabled_in name = any (λ c. not c.disable && (c.chain_name == name))

put_chain-has :
    (name : Text) (disable : Bool) (c : ChainConfig) (s : ChainRegistry)
    → is_some (get name (if disable then s else put_chain c s).chain_name_to_chain_config)
      ≡ (not disable && (c.chain_name == name) || is_some (get name s.chain_name_to_chain_config))
unfolding put_chain
put_chain-has name true c s = refl
put_chain-has name false c s =
    ground (
      arith,
      get-put c.chain_name name (new_registered_chain_config c) s.chain_name_to_chain_config,
    )

put_chains-has :
    (name : Text) (cs : List ChainConfig) (s : ChainRegistry)
    → is_some (get name (put_chains cs s).chain_name_to_chain_config)
      ≡ (is_enabled_in name cs || is_some (get name s.chain_name_to_chain_config))
unfolding put_chains any
put_chains-has name [] s = refl
put_chains-has name (c ∷ cs) s = ground (
  arith,
  put_chains-has name cs (if c.disable then s else put_chain c s),
  put_chain-has name c.disable c s,
)

All-put {ℓ} :
    {V : Type ℓ} (P : V → Type 0) (k : Text) (v : V) (m : Map Text V)
    → P v
    → All (λ entry. P entry.1) m
    → All (λ entry. P entry.1) (put k v m)
unfolding put
All-put P k v [] here h = (here, tt)
All-put P k v ((j, w) ∷ m) here h = elim (Bool-cases (j == k)) [
  | inl e ↦ rw e (here, h.1)
  | inr e ↦ rw e (h.0, All-put P k v m here h.1)
]

put_chain-All :
    (P : RegisteredChainConfig → Type 0) (disable : Bool) (c : ChainConfig) (s : ChainRegistry)
    → P (new_registered_chain_config c)
    → All (λ entry. P entry.1) s.chain_name_to_chain_config
    → All (λ entry. P entry.1) (if disable then s else put_chain c s).chain_name_to_chain_config
unfolding put_chain
put_chain-All P true c s here h = h
put_chain-All P false c s here h =
    All-put P c.chain_name (new_registered_chain_config c) s.chain_name_to_chain_config here h

put_chains-All :
    (P : RegisteredChainConfig → Type 0) (cs : List ChainConfig) (s : ChainRegistry)
    → ((c : ChainConfig) → P (new_registered_chain_config c))
    → All (λ entry. P entry.1) s.chain_name_to_chain_config
    → All (λ entry. P entry.1) (put_chains cs s).chain_name_to_chain_config
unfolding put_chains
put_chains-All P [] s new h = h
put_chains-All P (c ∷ cs) s new h =
    put_chains-All P cs (if c.disable then s else put_chain c s) new
      (put_chain-All P c.disable c s (new c) h)

All-values {ℓ κ} :
    {V : Type ℓ} (P : V → Type κ) (m : Map Text V)
    → All (λ entry. P entry.1) m
    → All P (map (λ entry. entry.1) m)
All-values P [] h = tt
All-values P ((k, v) ∷ m) h = (h.0, All-values P m h.1)

update_validated-put :
    (users : UsersConfig) (cs : List ChainConfig) (result : Option ChainError) (s : ChainRegistry)
    → validate_chains users cs ≡ result
    → (update_validated result cs s).0 ≡ none
    → (update_validated result cs s).1 ≡ put_chains cs no_chains
unfolding update_validated validate_chains
update_validated-put users cs (some e) s v h = cc
update_validated-put users [] none s v h = cc
update_validated-put users (c ∷ cs) none s v h = refl

update-put :
    (users : UsersConfig) (cs : List ChainConfig) (s : ChainRegistry)
    → (update_chains_config users cs s).0 ≡ none
    → (update_chains_config users cs s).1 ≡ put_chains cs no_chains
unfolding update_chains_config
update-put users cs s = update_validated-put users cs (validate_chains users cs) s refl

-- After an update that reports no error exactly the enabled chains of the configuration are
-- registered.
pub has_chain-update :
    (users : UsersConfig) (cs : List ChainConfig) (s : ChainRegistry) (name : Text)
    → (update_chains_config users cs s).0 ≡ none
    → has_chain name (update_chains_config users cs s).1 ≡ is_enabled_in name cs
unfolding has_chain
has_chain-update users cs s name h = ground (
  arith,
  update-put users cs s h,
  put_chains-has name cs no_chains,
  get-nil {V = RegisteredChainConfig} name,
)

fresh-due :
    (now : Time) (d : ℕ) (p : Pauser) (c : ChainConfig)
    → d ≤ max_duration
    → d ≤ now
    → is_due now (pos d) p (new_registered_chain_config c)
      ≡ not (is_chain_paused now (new_registered_chain_config c).chain_name p).0
unfolding new_registered_chain_config
fresh-due now d p c small le = ground (arith, since-le now zero_time d small)

-- An update that reports no error forgets when the chains were checked: each registered chain that
-- is not paused is due at once, however short ago it was checked.
pub update-due :
    (users : UsersConfig) (cs : List ChainConfig) (s : ChainRegistry) (now : Time) (d : ℕ)
    (p : Pauser)
    → (update_chains_config users cs s).0 ≡ none
    → d ≤ max_duration
    → d ≤ now
    → All
        (λ c. is_due now (pos d) p c ≡ not (is_chain_paused now c.chain_name p).0)
        (get_copy_all_chain_configs (update_chains_config users cs s).1)
unfolding get_copy_all_chain_configs
update-due users cs s now d p h small le = rw (update-put users cs s h) (
    All-values _ (put_chains cs no_chains).chain_name_to_chain_config
      (put_chains-All _ cs no_chains (λ c. fresh-due now d p c small le) tt))
