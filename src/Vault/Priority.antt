-- ===== src/Vault/Priority.antt =====
-- src/vault.rs: `get_keys_for_provider` is the stable sort by priority of the provider's entries.
use skyport.Prelude.{
  ℕ, ◌≤◌, ◌≡◌, refl, ◌∙◌, inl, inr, Bool, ◌&&◌, List, [], ◌∷◌, Memᴰ, arith, leb, ◌==◌, leb→le,
  lt_of_leb, tests, Bool-cases, filter, All, All-filter, filter-filter, All-imp, Memᴰ-All, Text,
  text_eq,
}
use skyport.Vault.{VaultEntry, Vault, insert_by_priority, sort_by_priority, get_keys_for_provider}

abbrev pub IsSorted : List VaultEntry → Type 0
IsSorted [] = Unit
IsSorted (e ∷ es) = All (λ f. e.priority ≤ f.priority) es × IsSorted es

insert-All :
    (n : ℕ) (e : VaultEntry) (fs : List VaultEntry)
    → n ≤ e.priority
    → All (λ f. n ≤ f.priority) fs
    → All (λ f. n ≤ f.priority) (insert_by_priority e fs)
unfolding insert_by_priority
insert-All n e [] h hs = (h, tt)
insert-All n e (f ∷ fs) h (k, hs) = ground (arith, insert-All n e fs h hs)

insert-IsSorted :
    (e : VaultEntry) (fs : List VaultEntry) → IsSorted fs → IsSorted (insert_by_priority e fs)
unfolding insert_by_priority
insert-IsSorted e [] s = (tt, tt)
insert-IsSorted e (f ∷ fs) (lo, s) = elim (Bool-cases (leb e.priority f.priority)) [
  | inl h ↦ rw h ((leb→le _ _ h, All-imp _ _ fs (λ g p. omega tests) lo), (lo, s))
  | inr h ↦
      rw h (insert-All f.priority e fs (omega (arith, lt_of_leb _ _ h)) lo, insert-IsSorted e fs s)
]

abbrev pub at_priority : ℕ → VaultEntry → Bool
at_priority n e = e.priority == n

filter-insert :
    (n : ℕ) (e : VaultEntry) (fs : List VaultEntry)
    → filter (at_priority n) (insert_by_priority e fs) ≡ filter (at_priority n) (e ∷ fs)
unfolding insert_by_priority
filter-insert n e [] = refl
filter-insert n e (f ∷ fs) = ground (arith, filter-insert n e fs)

filter-sort :
    (n : ℕ) (es : List VaultEntry)
    → filter (at_priority n) (sort_by_priority es) ≡ filter (at_priority n) es
unfolding sort_by_priority
filter-sort n [] = refl
filter-sort n (e ∷ es) = filter-insert n e (sort_by_priority es) ∙ ground (arith, filter-sort n es)

pub sort-IsSorted : (es : List VaultEntry) → IsSorted (sort_by_priority es)
unfolding sort_by_priority
sort-IsSorted [] = tt
sort-IsSorted (e ∷ es) = insert-IsSorted e (sort_by_priority es) (sort-IsSorted es)

-- The keys of a provider come in ascending priority, and those of one priority are exactly the
-- entries of the provider with that priority, in the order of the vault.
pub get_keys_for_provider-IsSorted :
    (v : Vault) (provider : Text) (n : ℕ)
    → IsSorted (get_keys_for_provider v provider)
      × (filter (at_priority n) (get_keys_for_provider v provider)
          ≡ filter (λ e. text_eq e.provider provider && at_priority n e) v.entries)
unfolding get_keys_for_provider
get_keys_for_provider-IsSorted v provider n =
    let own = filter (λ (e : VaultEntry). text_eq e.provider provider) v.entries in
    (sort-IsSorted own, filter-sort n own ∙ filter-filter _ (at_priority n) v.entries)

Memᴰ-insert :
    (e : VaultEntry) (fs : List VaultEntry) {a : VaultEntry}
    → Memᴰ a (insert_by_priority e fs)
    → Memᴰ a (e ∷ fs)
unfolding insert_by_priority
Memᴰ-insert e [] m = m
Memᴰ-insert e (f ∷ fs) {a} m = elim (Bool-cases (leb e.priority f.priority)) [
  | inl h ↦ rw h at m
  | inr h ↦ later (Memᴰ-insert e fs) (rw h at m)
]
  where
    deeper : {x : VaultEntry} → Memᴰ x (e ∷ fs) → Memᴰ x (e ∷ f ∷ fs)
    deeper (Memᴰ.head q) = Memᴰ.head q
    deeper (Memᴰ.tail n) = Memᴰ.tail (Memᴰ.tail n)

    later :
        {x : VaultEntry}
        → (Memᴰ x (insert_by_priority e fs) → Memᴰ x (e ∷ fs))
        → Memᴰ x (f ∷ insert_by_priority e fs)
        → Memᴰ x (e ∷ f ∷ fs)
    later ih (Memᴰ.head q) = Memᴰ.tail (Memᴰ.head q)
    later ih (Memᴰ.tail n) = deeper (ih n)

-- Sorting neither adds an entry
pub Memᴰ-sort : (es : List VaultEntry) {a : VaultEntry} → Memᴰ a (sort_by_priority es) → Memᴰ a es
unfolding sort_by_priority
Memᴰ-sort [] m = m
Memᴰ-sort (e ∷ es) m = keep (Memᴰ-insert e (sort_by_priority es) m) (Memᴰ-sort es)
  where
    keep :
        {x : VaultEntry}
        → Memᴰ x (e ∷ sort_by_priority es)
        → (Memᴰ x (sort_by_priority es) → Memᴰ x es)
        → Memᴰ x (e ∷ es)
    keep (Memᴰ.head q) ih = Memᴰ.head q
    keep (Memᴰ.tail n) ih = Memᴰ.tail (ih n)

insert-Memᴰ :
    (e : VaultEntry) (fs : List VaultEntry) {a : VaultEntry}
    → Memᴰ a (e ∷ fs)
    → Memᴰ a (insert_by_priority e fs)
unfolding insert_by_priority
insert-Memᴰ e [] m = m
insert-Memᴰ e (f ∷ fs) m = elim (Bool-cases (leb e.priority f.priority)) [
  | inl h ↦ rw h m
  | inr h ↦ rw h (later m (insert-Memᴰ e fs))
]
  where
    later :
        {x : VaultEntry}
        → Memᴰ x (e ∷ f ∷ fs)
        → (Memᴰ x (e ∷ fs) → Memᴰ x (insert_by_priority e fs))
        → Memᴰ x (f ∷ insert_by_priority e fs)
    later (Memᴰ.head q) ih = Memᴰ.tail (ih (Memᴰ.head q))
    later (Memᴰ.tail (Memᴰ.head q)) ih = Memᴰ.head q
    later (Memᴰ.tail (Memᴰ.tail n)) ih = Memᴰ.tail (ih (Memᴰ.tail n))

-- nor loses one.
pub sort-Memᴰ : (es : List VaultEntry) {a : VaultEntry} → Memᴰ a es → Memᴰ a (sort_by_priority es)
unfolding sort_by_priority
sort-Memᴰ [] m = m
sort-Memᴰ (e ∷ es) (Memᴰ.head q) = insert-Memᴰ e (sort_by_priority es) (Memᴰ.head q)
sort-Memᴰ (e ∷ es) (Memᴰ.tail n) = insert-Memᴰ e (sort_by_priority es) (Memᴰ.tail (sort-Memᴰ es n))

pub IsSorted-filter :
    (p : VaultEntry → Bool) (es : List VaultEntry) → IsSorted es → IsSorted (filter p es)
IsSorted-filter p [] s = tt
IsSorted-filter p (e ∷ es) (lo, s) = elim (Bool-cases (p e)) [
  | inl t ↦ rw t (All-filter _ p es lo, IsSorted-filter p es s)
  | inr f ↦ rw f (IsSorted-filter p es s)
]

-- The first of a sorted list is the least.
pub head-le :
    (first : VaultEntry) (others : List VaultEntry) (e : VaultEntry)
    → IsSorted (first ∷ others)
    → Memᴰ e (first ∷ others)
    → first.priority ≤ e.priority
head-le first others e (lo, s) m =
    Memᴰ-All (λ (x : VaultEntry). first.priority ≤ x.priority) (first ∷ others) (omega arith, lo) m
