-- ===== src/Vault/Storage.antt =====
-- src/vault.rs: the vault's file and the two accounts of the credential store, and runs that may stop
-- between any two writes to them or before a sync. A read that fails ends a run as a failed write before the next write would.
use skyport.Prelude.{
  ℕ, zero, suc, Option, none, some, ◌==◌, if◌then◌else◌, length, Text, Result, ok, err,
}
use skyport.Vault.Envelope.{Bytes, Primitives, DiskError, interrupted}

pub data Account : Type 0 where
  current previous : Account

pub record Storage : Type 0 where
  pub file : Option Bytes
  pub current_password : Option Text
  pub previous_password : Option Text

abbrev pub password : Storage → Account → Option Text
password s current = s.current_password
password s previous = s.previous_password

abbrev pub set_password : Account → Option Text → Storage → Storage
set_password current secret s = record s { current_password = secret }
set_password previous secret s = record s { previous_password = secret }

-- The storage, and how many steps a run makes before it is interrupted: its writes and syncs.
abbrev pub Machine : Type 0
Machine = Storage × ℕ

abbrev pub Disk : Type 0 → Type 0
Disk A = Machine → Machine × Result DiskError A

-- `?`
abbrev pub continue :
    {A B : Type 0} → Machine × Result DiskError A → (A → Disk B) → Machine × Result DiskError B
continue (m, ok a) k = k a m
continue (m, err e) k = (m, err e)

infixl 5 ◌>>=◌ ◌>>◌
abbrev pub ◌>>=◌ : {A B : Type 0} → Disk A → (A → Disk B) → Disk B
◌>>=◌ run k m = continue (run m) k

abbrev pub ◌>>◌ : {B : Type 0} → Disk (Unit {0}) → Disk B → Disk B
run >> k = run >>= λ _. k

abbrev pub return : {A : Type 0} → A → Disk A
return a m = (m, ok a)

abbrev pub lift : {A : Type 0} → Result DiskError A → Disk A
lift r m = (m, r)

abbrev pub read : {A : Type 0} → (Storage → A) → Disk A
read f (s, n) = ((s, n), ok (f s))

unfoldable pub write : (Storage → Storage) → Disk (Unit {0})
write change (s, zero) = ((s, zero), err interrupted)
write change (s, suc n) = ((change s, n), ok tt)

-- On Unix the directory is synced after the rename: nothing changes, but it can fail.
unfoldable pub sync_parent : Disk (Unit {0})
unfolding write
sync_parent = write (λ s. s)

-- A write to a temporary file and a rename over the old one, which is all of it or nothing, and then
-- the sync of the directory: where only that fails, the answer is an error and the file is the new one.
unfoldable pub durable_write : (Storage → Storage) → Disk (Unit {0})
unfolding write sync_parent
durable_write change = write change >> sync_parent

unfoldable pub atomic_write : Bytes → Disk (Unit {0})
unfolding durable_write
atomic_write contents = durable_write (λ s. record s { file = some contents })

pub data StoredKey : Type 0 where
  missing invalid : StoredKey
  present : Bytes → StoredKey

abbrev pub as_bytes : StoredKey → Option Bytes
as_bytes missing = none
as_bytes invalid = none
as_bytes (present key) = some key

module _ (p : Primitives) where
  -- what a stored password stands for
  abbrev pub stored_key : Option Text → StoredKey
  stored_key none = missing
  stored_key (some secret) = elim (p.decode secret) [
    | none ↦ invalid
    | some key ↦ if length key == 32 then present key else invalid
  ]

  unfoldable pub read_stored_key : Account → Disk StoredKey
  read_stored_key account = read (λ s. stored_key (password s account))

  -- A store that keeps its secrets in files writes them as the vault's file is written.
  unfoldable pub set_stored_key : Account → Bytes → Disk (Unit {0})
  unfolding durable_write
  set_stored_key account key = durable_write (set_password account (some (p.encode key)))

  unfoldable pub delete_stored_key : Account → Disk (Unit {0})
  unfolding write
  delete_stored_key account = write (set_password account none)
