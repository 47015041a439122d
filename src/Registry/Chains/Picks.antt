-- ===== src/Registry/Chains/Picks.antt =====
-- Which chain is checked next, and how the call leaves the registry.
use mathlib.Core.List.{Permᴰ}
use mathlib.Core.List.Permᴰ.{symm}
use validator_health_check.Prelude.{
  Bool, true, false, not, ◌&&◌, List, [], ◌∷◌, Option, none, some, leb_ℤ, Time, Duration, since,
  SortSlice, IsSorted, All, All-perm, text_eq, if◌then◌else◌, arith, ◌≡◌, ◌≢◌, ◌⊎◌, refl,
  Bool-cases, inl, inr, Text, Map, get, ◌==◌, ==_iff,
}
use validator_health_check.Registry.Pauser.{Pauser, is_chain_paused}
use validator_health_check.Registry.Chains.{
  RegisteredChainConfig, ChainRegistry, more_urgent, text_ltb, find_due, take_chain,
  set_last_health_check_utc, get_copy_all_chain_configs, get_first_chain_config_for_health_check,
}
use validator_health_check.Registry.Chains.Order.{more_urgent-IsWeakOrder}

-- The chain is not paused and was last checked `min_duration` ago at least.
abbrev pub is_due : Time → Duration → Pauser → RegisteredChainConfig → Bool
is_due now min_duration p c =
    not (is_chain_paused now c.chain_name p).0
    && leb_ℤ min_duration (since now c.last_health_check_utc)

-- The chain may come after the other: it has no priority that the other has not, and of two that are
-- alike in this its name is not the smaller one.
abbrev pub MayWait : RegisteredChainConfig → RegisteredChainConfig → Type 0
MayWait c other =
    (c.priority ≡ true → other.priority ≡ true)
    × (c.priority ≡ other.priority → text_ltb c.chain_name other.chain_name ≡ false)

MayWait-more_urgent :
    (c other : RegisteredChainConfig) → more_urgent c other ≡ false → MayWait c other
unfolding more_urgent
MayWait-more_urgent c other h = ((λ e. ground arith), λ e. ground arith)

-- The most urgent of the chains that are due, if there is one.
abbrev pub MostUrgentDue :
    Time → Duration → Pauser → List RegisteredChainConfig → Option RegisteredChainConfig → Type 0
MostUrgentDue now min_duration p cs none = All (λ c. is_due now min_duration p c ≡ false) cs
MostUrgentDue now min_duration p cs (some c) =
    (is_due now min_duration p c ≡ true)
    × ¬ All (λ other. other ≢ c) cs
    × All (λ other. (is_due now min_duration p other ≡ false) ⊎ MayWait other c) cs

module _ (now : Time) (min_duration : Duration) (p : Pauser) where
  All-urgent :
      (c : RegisteredChainConfig) (cs : List RegisteredChainConfig)
      → All (λ other. more_urgent other c ≡ false) cs
      → All (λ other. (is_due now min_duration p other ≡ false) ⊎ MayWait other c) cs
  All-urgent c [] h = tt
  All-urgent c (x ∷ cs) h = (inr (MayWait-more_urgent x c h.0), All-urgent c cs h.1)

  find_due-cons :
      (c : RegisteredChainConfig) (cs : List RegisteredChainConfig)
      → find_due now min_duration p (c ∷ cs)
        ≡ (if is_due now min_duration p c then some c else find_due now min_duration p cs)
  unfolding find_due
  find_due-cons c cs = ground arith

  MostUrgentDue-later :
      (c : RegisteredChainConfig) (cs : List RegisteredChainConfig)
      (found : Option RegisteredChainConfig)
      → is_due now min_duration p c ≡ false
      → MostUrgentDue now min_duration p cs found
      → MostUrgentDue now min_duration p (c ∷ cs) found
  MostUrgentDue-later c cs none h m = (h, m)
  MostUrgentDue-later c cs (some d) h (due, there, urgent) =
      (due, (λ all. there all.1), (inl h, urgent))

  find_due-MostUrgentDue :
      (cs : List RegisteredChainConfig)
      → IsSorted more_urgent cs
      → MostUrgentDue now min_duration p cs (find_due now min_duration p cs)
  find_due-MostUrgentDue [] s = unfold find_due in tt
  find_due-MostUrgentDue (c ∷ cs) s = elim (Bool-cases (is_due now min_duration p c)) [
    | inl e ↦
        rw (find_due-cons, e)
          (
            e,
            (λ all. all.0 refl),
            (inr (MayWait-more_urgent c c (more_urgent-IsWeakOrder.irrefl c)), All-urgent c cs s.0),
          )
    | inr e ↦ rw (find_due-cons, e) (MostUrgentDue-later c cs _ e (find_due-MostUrgentDue cs s.1))
  ]

  MostUrgentDue-perm :
      (xs ys : List RegisteredChainConfig) (found : Option RegisteredChainConfig)
      → Permᴰ xs ys
      → MostUrgentDue now min_duration p xs found
      → MostUrgentDue now min_duration p ys found
  MostUrgentDue-perm xs ys none e m = All-perm _ (symm e) m
  MostUrgentDue-perm xs ys (some c) e (due, there, urgent) =
      (due, (λ all. there (All-perm _ e all)), All-perm _ (symm e) urgent)

-- The chain as it is once it counts as checked at `now`.
abbrev pub checked_at : Time → RegisteredChainConfig → RegisteredChainConfig
checked_at now c = record c { last_health_check_utc = now }

abbrev pub marked : Time → Bool → Option RegisteredChainConfig → Option RegisteredChainConfig
marked now chosen none = none
marked now chosen (some c) = some (if chosen then checked_at now c else c)

-- What a call does with the chain that it found, in the registry that the other callers leave: the
-- config that stands under the name of that chain is marked, and every other one is as before.
abbrev pub Picked :
    Time
    → ChainRegistry
    → Option RegisteredChainConfig
    → Option RegisteredChainConfig × ChainRegistry
    → Type 0
Picked now s none r = (r.0 ≡ none) × (r.1 ≡ s)
Picked now s (some c) r =
    (r.0 ≡ some (checked_at now c))
    × ((name : Text)
        → get name r.1.chain_name_to_chain_config
          ≡ marked now (name == c.chain_name) (get name s.chain_name_to_chain_config))
    × (r.1.watcher_identity_to_chain_name_to_valoper ≡ s.watcher_identity_to_chain_name_to_valoper)

get-set_last :
    (now : Time) (chain_name name : Text) (m : Map Text RegisteredChainConfig)
    → get name (set_last_health_check_utc now chain_name m)
      ≡ marked now (name == chain_name) (get name m)
unfolding set_last_health_check_utc get
get-set_last now chain_name name [] = refl
get-set_last now chain_name name ((k, c) ∷ m) = elim (Bool-cases (k == name)) [
  | inl e ↦ rw (e, (==_iff k name).0 e) refl
  | inr e ↦ rw e (get-set_last now chain_name name m)
]

take_chain-Picked :
    (now : Time) (s : ChainRegistry) (found : Option RegisteredChainConfig)
    → Picked now s found (take_chain now found s)
unfolding take_chain
take_chain-Picked now s none = (refl, refl)
take_chain-Picked now s (some c) =
    (refl, (λ name. get-set_last now c.chain_name name s.chain_name_to_chain_config), refl)

-- `GetFirstChainConfigForHealthCheckRL` gives the most urgent of the registered chains that are due,
-- those with priority first and then by name, and nothing only if none is due. In the registry that
-- other callers leave meanwhile, it marks the config under the name of that chain as checked now, and
-- changes nothing else.
pub first-MostUrgentDue :
    (sorter : SortSlice RegisteredChainConfig) (now : Time) (min_duration : Duration) (p : Pauser)
    (others : ChainRegistry → ChainRegistry) (s : ChainRegistry)
    → (found : Option RegisteredChainConfig) × MostUrgentDue now min_duration p
        (get_copy_all_chain_configs s)
        found
      × Picked now
          (others s)
          found
          (get_first_chain_config_for_health_check sorter now min_duration p others s)
unfolding get_first_chain_config_for_health_check
first-MostUrgentDue sorter now min_duration p others s =
    let all = get_copy_all_chain_configs s in
    let sorted = sorter.sort_slice more_urgent all in
    (
      find_due now min_duration p sorted,
      MostUrgentDue-perm now min_duration p sorted all _ (sorter.sort_slice-perm more_urgent all) (
          find_due-MostUrgentDue now min_duration p sorted
            (sorter.sort_slice-IsSorted more_urgent all more_urgent-IsWeakOrder)),
      take_chain-Picked now (others s) (find_due now min_duration p sorted),
    )
