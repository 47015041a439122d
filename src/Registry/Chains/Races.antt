-- ===== src/Registry/Chains/Races.antt =====
-- How far apart the checks of one chain are when several workers look for chains: a call tests, and
-- then marks, and other workers act in between. The chains are not reloaded meanwhile.
use validator_health_check.Prelude.{
  ℕ, ◌+◌, ◌≤◌, true, List, [], ◌∷◌, Option, none, some, Text, Map, leb_ℤ, Time, Duration, pos,
  since, since-ge, map, SortSlice, All, All-perm, ◌==◌, ==_iff, text_eq, arith, ◌≡◌, refl,
  Bool-cases, inl, inr, sym, ◌∙◌, subst,
}
use validator_health_check.Registry.Pauser.{Pauser, is_chain_paused}
use validator_health_check.Registry.Chains.{
  RegisteredChainConfig, ChainRegistry, more_urgent, find_due, take_chain,
  set_last_health_check_utc, get_copy_all_chain_configs, get_first_chain_config_for_health_check,
}

-- Each config stands under the name of its chain.
abbrev pub IsKeyed : ChainRegistry → Type 0
IsKeyed s = All (λ entry. entry.1.chain_name ≡ entry.0) s.chain_name_to_chain_config

-- The chain was last checked at `t` or later, wherever it is held.
abbrev NotBefore : Time → Text → Map Text RegisteredChainConfig → Type 0
NotBefore t name = All (λ entry. (entry.0 == name) ≡ true → t ≤ entry.1.last_health_check_utc)

set_last-keyed :
    (now : Time) (name : Text) (m : Map Text RegisteredChainConfig)
    → All (λ entry. entry.1.chain_name ≡ entry.0) m
    → All (λ entry. entry.1.chain_name ≡ entry.0) (set_last_health_check_utc now name m)
unfolding set_last_health_check_utc
set_last-keyed now name [] h = tt
set_last-keyed now name ((k, c) ∷ m) h = (ground arith, set_last-keyed now name m h.1)

set_last-NotBefore :
    (now : Time) (name : Text) (m : Map Text RegisteredChainConfig)
    → NotBefore now name (set_last_health_check_utc now name m)
unfolding set_last_health_check_utc
set_last-NotBefore now name [] = tt
set_last-NotBefore now name ((k, c) ∷ m) = (λ e. ground arith, set_last-NotBefore now name m)

set_last-NotBefore_later :
    (t now : Time) (name other : Text) (m : Map Text RegisteredChainConfig)
    → t ≤ now
    → NotBefore t name m
    → NotBefore t name (set_last_health_check_utc now other m)
unfolding set_last_health_check_utc
set_last-NotBefore_later t now name other [] le h = tt
set_last-NotBefore_later t now name other ((k, c) ∷ m) le h =
    (λ e. ground (arith, h.0 e), set_last-NotBefore_later t now name other m le h.1)

-- What a chain that is given out has in common with all that are registered.
find_due-All :
    (P : RegisteredChainConfig → Type 0) (now : Time) (min_duration : Duration) (p : Pauser)
    (cs : List RegisteredChainConfig) (c : RegisteredChainConfig)
    → All P cs
    → find_due now min_duration p cs ≡ some c
    → P c × (leb_ℤ min_duration (since now c.last_health_check_utc) ≡ true)
unfolding find_due
find_due-All P now min_duration p [] c all e = cc
find_due-All P now min_duration p (x ∷ cs) c all e =
    elim (Bool-cases (is_chain_paused now x.chain_name p).0) [
      | inl paused ↦ find_due-All P now min_duration p cs c all.1 (ground arith)
      | inr running ↦ elim (Bool-cases (leb_ℤ min_duration (since now x.last_health_check_utc))) [
        | inr early ↦ find_due-All P now min_duration p cs c all.1 (ground arith)
        | inl late ↦ let same : x ≡ c = ground arith in (subst P same all.0, rw (← same) late)
      ]
    ]

-- A mark that a worker sets.
pub record Mark : Type 0 where
  pub now : Time
  pub chain_name : Text

abbrev mark : Mark → ChainRegistry → ChainRegistry
mark m s = record s {
  chain_name_to_chain_config =
      set_last_health_check_utc m.now m.chain_name s.chain_name_to_chain_config;
}

unfoldable pub marks : List Mark → ChainRegistry → ChainRegistry
marks [] s = s
marks (m ∷ ms) s = marks ms (mark m s)

-- Every mark is set at `t` or later.
abbrev pub AllFrom : Time → List Mark → Type 0
AllFrom t [] = Unit
AllFrom t (m ∷ ms) = (t ≤ m.now) × AllFrom t ms

-- One call, with the instant at which it runs, the pauser that it finds, and what other workers do
-- between its test and its mark.
pub record Call : Type 0 where
  pub now : Time
  pub min_duration : Duration
  pub pauser : Pauser
  pub others : ChainRegistry → ChainRegistry

abbrev pub call :
    SortSlice RegisteredChainConfig
    → Call
    → ChainRegistry
    → Option RegisteredChainConfig × ChainRegistry
call sorter c =
    get_first_chain_config_for_health_check sorter c.now c.min_duration c.pauser c.others

All-values {ℓ κ} :
    {V : Type ℓ} (P : V → Type κ) (Q : Text × V → Type κ) (m : Map Text V)
    → ((entry : Text × V) → Q entry → P entry.1)
    → All Q m
    → All P (map (λ entry. entry.1) m)
All-values P Q [] sound h = tt
All-values P Q ((k, v) ∷ m) sound h = (sound (k, v) h.0, All-values P Q m sound h.1)

All-both {ℓ κ} :
    {A : Type ℓ} (P Q : A → Type κ) (xs : List A) → All P xs → All Q xs → All (λ x. P x × Q x) xs
All-both P Q [] p q = tt
All-both P Q (x ∷ xs) p q = ((p.0, q.0), All-both P Q xs p.1 q.1)

-- The registry is keyed, and holds the chain as checked at `t` or later.
abbrev Keeps : Time → Text → ChainRegistry → Type 0
Keeps t name s = IsKeyed s × NotBefore t name s.chain_name_to_chain_config

take_chain-taken :
    (now : Time) (found : Option RegisteredChainConfig) (s : ChainRegistry)
    (c : RegisteredChainConfig)
    → IsKeyed s
    → (take_chain now found s).0 ≡ some c
    → Keeps now c.chain_name (take_chain now found s).1
unfolding take_chain
take_chain-taken now none s c k h = cc
take_chain-taken now (some d) s c k h =
    let same : d.chain_name ≡ c.chain_name = ground arith in
    (
      set_last-keyed now d.chain_name s.chain_name_to_chain_config k,
      subst
          (λ name.
            NotBefore now name
              (set_last_health_check_utc now d.chain_name s.chain_name_to_chain_config))
          same (set_last-NotBefore now d.chain_name s.chain_name_to_chain_config),
    )

found-late :
    (t now : Time) (d : ℕ) (name : Text) (found : Option RegisteredChainConfig) (s : ChainRegistry)
    (c : RegisteredChainConfig)
    → ((x : RegisteredChainConfig)
        → found ≡ some x
        → (x.chain_name ≡ name → t ≤ x.last_health_check_utc)
          × (leb_ℤ (pos d) (since now x.last_health_check_utc) ≡ true))
    → (take_chain now found s).0 ≡ some c
    → c.chain_name ≡ name
    → t + d ≤ now
unfolding take_chain
found-late t now d name none s c late h e = cc
found-late t now d name (some x) s c late h e =
    let (after, elapsed) = late x refl in
    let named : x.chain_name ≡ name = ground arith in
    omega (arith, after named, since-ge now x.last_health_check_utc d elapsed)

marks-Keeps :
    (t : Time) (name : Text) (ms : List Mark) (s : ChainRegistry)
    → AllFrom t ms
    → Keeps t name s
    → Keeps t name (marks ms s)
unfolding marks
marks-Keeps t name [] s from h = h
marks-Keeps t name (m ∷ ms) s from h = marks-Keeps t name ms (mark m s) from.1 (
  set_last-keyed m.now m.chain_name s.chain_name_to_chain_config h.0,
  set_last-NotBefore_later t m.now name m.chain_name s.chain_name_to_chain_config from.0 h.1,
)

module _ (sorter : SortSlice RegisteredChainConfig) where
  call-taken :
      (first : Call) (s : ChainRegistry) (c : RegisteredChainConfig)
      → IsKeyed (first.others s)
      → (call sorter first s).0 ≡ some c
      → Keeps first.now c.chain_name (call sorter first s).1
  unfolding get_first_chain_config_for_health_check
  call-taken first s c k h = take_chain-taken first.now _ (first.others s) c k h

  call-late :
      (t : Time) (d : ℕ) (name : Text) (last : Call) (s : ChainRegistry) (c : RegisteredChainConfig)
      → last.min_duration ≡ pos d
      → Keeps t name s
      → (call sorter last s).0 ≡ some c
      → c.chain_name ≡ name
      → t + d ≤ last.now
  unfolding get_first_chain_config_for_health_check get_copy_all_chain_configs
  call-late t d name last s c same (keyed, kept) h e =
      found-late t last.now d name _ (last.others s) c late h e
    where
      all_kept :
          All
            (λ x. x.chain_name ≡ name → t ≤ x.last_health_check_utc)
            (map (λ entry. entry.1) s.chain_name_to_chain_config)
      all_kept =
          All-values _ _ s.chain_name_to_chain_config
            (λ entry h'. λ named. h'.1 ((==_iff entry.0 name).1 (sym h'.0 ∙ named)))
            (All-both (λ entry. entry.1.chain_name ≡ entry.0) _ s.chain_name_to_chain_config keyed
              kept)

      late :
          (x : RegisteredChainConfig)
          → find_due last.now last.min_duration last.pauser
              (sorter.sort_slice more_urgent (map (λ entry. entry.1) s.chain_name_to_chain_config))
            ≡ some x
          → (x.chain_name ≡ name → t ≤ x.last_health_check_utc)
            × (leb_ℤ (pos d) (since last.now x.last_health_check_utc) ≡ true)
      late x found = rw same at (
          find_due-All (λ y. y.chain_name ≡ name → t ≤ y.last_health_check_utc) last.now
            last.min_duration last.pauser _ x
            (All-perm _
              (sorter.sort_slice-perm more_urgent
                (map (λ entry. entry.1) s.chain_name_to_chain_config))
              all_kept)
            found)

-- Once a worker has been given a chain and has marked it, and whatever marks other workers set from
-- then on, a call that tests after this is given the same chain only when the duration that it asks
-- for has passed since, whatever happens between its test and its mark.
pub picks_spaced :
    (sorter : SortSlice RegisteredChainConfig) (first last : Call) (between : List Mark) (d : ℕ)
    (s : ChainRegistry) (c c' : RegisteredChainConfig)
    → IsKeyed (first.others s)
    → (call sorter first s).0 ≡ some c
    → AllFrom first.now between
    → last.min_duration ≡ pos d
    → (call sorter last (marks between (call sorter first s).1)).0 ≡ some c'
    → c'.chain_name ≡ c.chain_name
    → first.now + d ≤ last.now
picks_spaced sorter first last between d s c c' k given from same again e =
    call-late sorter first.now d c.chain_name last (marks between (call sorter first s).1) c' same
      (marks-Keeps first.now c.chain_name between (call sorter first s).1 from
        (call-taken sorter first s c k given))
      again e

take_chain-same :
    (now : Time) (found : Option RegisteredChainConfig) (s s' : ChainRegistry)
    → (take_chain now found s).0 ≡ (take_chain now found s').0
unfolding take_chain
take_chain-same now none s s' = refl
take_chain-same now (some c) s s' = refl

-- A worker that runs its whole call between the test and the mark of another one, at the same instant,
-- is given the same chain.
pub overlapping_picks :
    (sorter : SortSlice RegisteredChainConfig) (now : Time) (min_duration : Duration) (p : Pauser)
    (s : ChainRegistry)
    → let inner =
        get_first_chain_config_for_health_check sorter now min_duration p (λ registry. registry) in
      (get_first_chain_config_for_health_check sorter now min_duration p
        (λ registry. (inner registry).1)
        s).0
      ≡ (inner s).0
unfolding get_first_chain_config_for_health_check
overlapping_picks sorter now min_duration p s = take_chain-same now _ _ _
