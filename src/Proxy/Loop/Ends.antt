-- ===== src/Proxy/Loop/Ends.antt =====
-- src/api/v1.rs: the loop of `proxy` ends.
use skyport.Prelude.{
  ℕ, suc, ◌≤◌, ◌<◌, ◌≡◌, refl, sym, ap, subst, inl, inr, Bool, true, false, Option, some, List, [],
  ◌∷◌, Memᴰ, arith, if◌then◌else◌, Bool-cases, length, ℤ, Text, codes, text_eq, text_eq_iff, Result,
  ok, err,
}
use skyport.Vault.{VaultEntry, is_keyless_provider}
use skyport.Vault.Aliases.{aliases}
use skyport.Router.{Router, RouteDecision, RouteError, select_key}
use skyport.Router.Aliases.{select_key-vault, select_key-alias}
use skyport.Proxy.{Admitted}
use skyport.Proxy.Upstream.{Web}
use skyport.Proxy.Loop.{Round, Answer, LoopState, Step, stop, again, contains, is_local}
use skyport.Proxy.Loop.Run.{follow, try_key, with_key, iterate, run}
use skyport.Proxy.Loop.Progress.{Keeps, try_key-Keeps}

-- How many aliases of the vault have not been attempted.
abbrev untried : List Text → List Text → ℕ
untried attempted [] = 0
untried attempted (n ∷ names) =
    let rest = untried attempted names in if contains n attempted then rest else suc rest

untried-insert_le :
    (alias : Text) (attempted names : List Text)
    → untried (alias ∷ attempted) names ≤ untried attempted names
untried-insert_le alias attempted [] = omega arith
untried-insert_le alias attempted (n ∷ names) =
    ground (arith, untried-insert_le alias attempted names)

untried-insert_less :
    (alias : Text) (attempted names : List Text)
    → Memᴰ alias names
    → contains alias attempted ≡ false
    → untried (alias ∷ attempted) names < untried attempted names
untried-insert_less alias attempted [] m h = elim m [ ]
untried-insert_less alias attempted (n ∷ names) (Memᴰ.head q) h =
    let new : contains n attempted ≡ false = subst (λ b. contains b attempted ≡ false) q h in
    let same : text_eq alias n ≡ true = (text_eq_iff alias n).1 q in
    ground (arith, new, same, untried-insert_le alias attempted names)
untried-insert_less alias attempted (n ∷ names) (Memᴰ.tail m) h =
    ground (arith, untried-insert_less alias attempted names m h)

length-untried : (names : List Text) → untried [] names ≡ length names
length-untried [] = refl
length-untried (n ∷ names) = omega (arith, length-untried names)

length-aliases : (es : List VaultEntry) → length (aliases es) ≡ length es
length-aliases [] = refl
length-aliases (e ∷ es) = omega (arith, length-aliases es)

absent_local :
    (alias : Text) (names : List Text)
    → Memᴰ alias names
    → contains (codes "local") names ≡ false
    → is_local alias ≡ false
absent_local alias [] m h = elim m [ ]
absent_local alias (n ∷ names) (Memᴰ.head q) h = rw q (ground (arith, h))
absent_local alias (n ∷ names) (Memᴰ.tail m) h = absent_local alias names m (ground (arith, h))

-- Where the loop goes on, fewer aliases are left.
abbrev Advances : List Text → ℕ → LoopState × Step → Type 0
Advances names n (s, stop answer) = Unit {0}
Advances names n (s, again) =
    (aliases s.router.vault.entries ≡ names)
    × (untried s.attempted (aliases s.router.vault.entries) < n)

Keeps-Advances :
    (names attempted : List Text) (n : ℕ) (r : LoopState × Step)
    → untried attempted names < n
    → Keeps names attempted r
    → Advances names n r
Keeps-Advances names attempted n (s, stop answer) less h = tt
Keeps-Advances names attempted n (s, again) less (hn, ha) = (
  hn,
  subst (λ m. untried s.attempted m < n) (sym hn) (subst (λ b. untried b names < n) (sym ha) less),
)

module _ (web : Web) (decode : Text → Option (List ℕ)) (after : ℕ → ℤ → Option ℕ) (a : Admitted)
    (path : Text) (stream : Bool) where
  with_key-Advances :
      (round : Round) (s : LoopState) (selected : Router ℕ × Result RouteError RouteDecision)
      → aliases selected.0.vault.entries ≡ aliases s.router.vault.entries
      → ((d : RouteDecision)
          → selected.1 ≡ ok d
          → Memᴰ d.key_alias (aliases s.router.vault.entries))
      → contains (codes "local") (aliases s.router.vault.entries) ≡ false
      → Advances
          (aliases s.router.vault.entries)
          (untried s.attempted (aliases s.router.vault.entries))
          (with_key web decode after a path stream round s selected)
  with_key-Advances round s (r, err e) hv hd hl = tt
  with_key-Advances round s (r, ok d) hv hd hl =
      let names = aliases s.router.vault.entries in
      let known : Memᴰ d.key_alias names = hd d refl in
      let foreign : is_local d.key_alias ≡ false = absent_local d.key_alias names known hl in
      elim (Bool-cases (contains d.key_alias s.attempted)) [
        | inl old ↦ simp (old, foreign) tt
        | inr new ↦ simp new (
            Keeps-Advances names (d.key_alias ∷ s.attempted) (untried s.attempted names)
              (try_key web decode after a path stream round
                (record s { router = r; attempted = d.key_alias ∷ s.attempted }) d)
              (untried-insert_less d.key_alias s.attempted names known new)
              (try_key-Keeps names (d.key_alias ∷ s.attempted) web decode after a path stream round
                (record s { router = r; attempted = d.key_alias ∷ s.attempted }) d hv refl))
      ]

  iterate-Advances :
      (round : Round) (s : LoopState)
      → is_keyless_provider a.provider ≡ false
      → contains (codes "local") (aliases s.router.vault.entries) ≡ false
      → Advances
          (aliases s.router.vault.entries)
          (untried s.attempted (aliases s.router.vault.entries))
          (iterate web decode after a path stream round s)
  unfolding iterate
  iterate-Advances round s keyed hl =
      with_key-Advances round s (select_key s.router round.selected_at a.provider)
        (ap (λ v. aliases v.entries) (select_key-vault s.router round.selected_at a.provider))
        (λ d. select_key-alias s.router round.selected_at a.provider d keyed) hl

  follow-answers :
      (names : List Text) (n : ℕ) (next : LoopState → LoopState × Option Answer)
      (r : LoopState × Step)
      → Advances names n r
      → ((s : LoopState)
          → aliases s.router.vault.entries ≡ names
          → untried s.attempted (aliases s.router.vault.entries) < n
          → (answer : Answer) × ((next s).1 ≡ some answer))
      → (answer : Answer) × ((follow next r).1 ≡ some answer)
  follow-answers names n next (s, stop answer) h k = (answer, refl)
  follow-answers names n next (s, again) (hn, less) k = k s hn less

  run-answers_from :
      (rounds : List Round) (s : LoopState)
      → is_keyless_provider a.provider ≡ false
      → contains (codes "local") (aliases s.router.vault.entries) ≡ false
      → untried s.attempted (aliases s.router.vault.entries) < length rounds
      → (answer : Answer) × ((run web decode after a path stream rounds s).1 ≡ some answer)
  unfolding run
  run-answers_from [] s keyed hl h = absurd (omega (arith, h))
  run-answers_from (round ∷ rounds) s keyed hl h =
      follow-answers (aliases s.router.vault.entries)
        (untried s.attempted (aliases s.router.vault.entries))
        (run web decode after a path stream rounds) (iterate web decode after a path stream round s)
        (iterate-Advances round s keyed hl)
        (λ s' same less.
          run-answers_from rounds s' keyed
            (subst (λ names. contains (codes "local") names ≡ false) (sym same) hl)
            (omega (arith, less, h)))

  -- For a provider that needs a key, and with no entry under the alias "local", the loop has an answer
  -- after at most one round more than the vault has entries, whatever the clock, the database, the
  -- provider's replies and the token refreshes are.
  pub run-answers :
      (rounds : List Round) (s : LoopState)
      → is_keyless_provider a.provider ≡ false
      → contains (codes "local") (aliases s.router.vault.entries) ≡ false
      → s.attempted ≡ []
      → length s.router.vault.entries < length rounds
      → (answer : Answer) × ((run web decode after a path stream rounds s).1 ≡ some answer)
  run-answers rounds s keyed hl fresh h = run-answers_from rounds s keyed hl (
      subst (λ attempted. untried attempted (aliases s.router.vault.entries) < length rounds)
        (sym fresh)
        (omega (
          arith,
          length-untried (aliases s.router.vault.entries),
          length-aliases s.router.vault.entries,
          h,
        )))
