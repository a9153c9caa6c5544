-- ===== src/Runtime/Lock/Exclusive.antt =====
-- runtime/lock.ts: while the process that holds a lock lives, no process that asks later takes it,
-- however their calls interleave.
use carbon_runtime.Common.{ℕ, ◌≡◌, ◌≢◌, true, List, [], ◌∷◌, some, Text, All}
use carbon_runtime.Stream.Platform.{Node}
use carbon_runtime.Stream.Fault.{fault, name, ok, err, adapter_lock_held}
use carbon_runtime.Runtime.Lock.{
  Lock, LockFiles, Processes, Taker, lock_file, Phase, starting, reading, done, take_lock, Racer,
  race,
}

-- A process that has not begun, or that is on its way and can do nothing, or that was refused.
abbrev pub IsOutside : Text → Phase → Type 0
IsOutside channel_key starting = Unit
IsOutside channel_key (reading mine) = Unit
IsOutside channel_key (done (err faults)) = faults ≡ fault adapter_lock_held (name channel_key) ∷ []
IsOutside channel_key _ = ⊥

abbrev pub AreOutside : Text → Lock → List Racer → Type 0
AreOutside channel_key held racers =
    All (λ r. (held.pid ≢ r.taker.pid) × IsOutside channel_key r.phase) racers

-- Processes other than the holder that have not begun.
abbrev pub AreStarting : Lock → List Racer → Type 0
AreStarting held racers = All (λ r. (held.pid ≢ r.taker.pid) × (r.phase ≡ starting)) racers

-- The holder lives and runs its command line whenever a process makes a call.
abbrev pub Lives : Lock → List (ℕ × Processes) → Type 0
Lives held schedule = All (λ e. e.1 held.pid ≡ some held.command_line) schedule

-- What a lock that is held under a channel means for the processes that ask for it later.
pub record IsHeldBy (node : Node) (channel_key : Text) (held : Lock) (files : LockFiles)
    : Type 0 where
  -- However their calls interleave, none of them gets past the check, and no file is changed, while
  -- the holder lives.
  pub excludes :
      (schedule : List (ℕ × Processes)) (racers : List Racer)
      → Lives held schedule
      → AreStarting held racers
      → AreOutside channel_key held (race node channel_key schedule racers files).0
        × ((race node channel_key schedule racers files).1 ≡ files)
  -- One that goes on alone is refused while the holder lives.
  pub refuses :
      (ps : Processes) (taker : Taker)
      → ps held.pid ≡ some held.command_line
      → held.pid ≢ taker.pid
      → take_lock node ps channel_key taker files
        ≡ (done (err (fault adapter_lock_held (name channel_key) ∷ [])), files)
  -- Once it does not, one that goes on alone takes the lock over.
  pub gives_way :
      (ps : Processes) (taker : Taker)
      → ps held.pid ≢ some held.command_line
      → (take_lock node ps channel_key taker files).0
        ≡ done (
            ok (record {
              file = lock_file node channel_key;
              taken_over = true;
              previous = some held;
            }))

-- The calls of a process that goes on alone at a file that is there.
module _ (node : Node) (ps : Processes) (channel_key : Text) (taker : Taker) (held : Lock)
    (files : LockFiles) (there : files (lock_file node channel_key) ≡ some (some held)) where
  abbrev file : Text
  file = lock_file node channel_key
