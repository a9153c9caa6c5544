-- ===== src/Runtime/Lock.antt =====
-- runtime/lock.ts: one lock file for each adapter, taken over from a process that is gone. What `ps`
-- says of a process is a parameter. A process goes through `takeLock` by single calls of the file
-- system, and processes may be interleaved between any two. The creation of the file and the write
-- of its content are one call here. releaseLock is not modelled.
pub mod Exclusive
use carbon_runtime.Common.{
  ℕ, Bool, true, false, not, ◌&&◌, List, [], ◌∷◌, Option, none, some, or_else, Text, text_eq, ◌==◌,
  if◌then◌else◌, is_some, zero, suc,
}
use carbon_runtime.Stream.Platform.{Node}
use carbon_runtime.Stream.Fault.{fault, name, Result, ok, err, broken, adapter_lock_held}
use carbon_runtime.Stream.Encode.{encode_component}

-- What a lock file holds, less the time and the lock that it took over.
pub record Lock : Type 0 where
  pub channel : Text
  pub pid : ℕ
  pub command_line : Text

-- The lock files below `locks/`, by name: not there, or what it holds. One that does not parse holds
-- `none`.
abbrev pub LockFiles : Type 0
LockFiles = Text → Option (Option Lock)

-- `ps -o command= -p`: the command line of a live process.
abbrev pub Processes : Type 0
Processes = ℕ → Option Text

pub record Taken : Type 0 where
  pub file : Text
  pub taken_over : Bool
  pub previous : Option Lock

-- Who takes the lock: `commandLine`, where the caller gives one, and `process.argv`.
pub record Taker : Type 0 where
  pub pid : ℕ
  pub command_line : Option Text
  pub argv : Text

unfoldable pub lock_file : Node → Text → Text
lock_file node channel_key = encode_component node channel_key

-- `commandLine ?? commandLineOf(pid) ?? process.argv.join(' ')`.
unfoldable pub command_line_of : Processes → Taker → Text
command_line_of ps taker = or_else taker.command_line (or_else (ps taker.pid) taker.argv)

unfoldable pub lock_of : Processes → Text → Taker → Lock
lock_of ps channel_key taker = record {
  channel = channel_key;
  pid = taker.pid;
  command_line = command_line_of ps taker;
}

-- The holder is alive, runs the command line that took the lock, and is not the taker.
unfoldable pub runs_as : Text → Option Text → Bool
runs_as command_line none = false
runs_as command_line (some line) = text_eq line command_line

unfoldable pub is_obeyed : Processes → ℕ → Option Lock → Bool
unfolding runs_as
is_obeyed ps pid none = false
is_obeyed ps pid (some held) = runs_as held.command_line (ps held.pid) && not (held.pid == pid)

-- Where a process is inside `takeLock`, between two calls of the file system: it has not begun; it has
-- seen a file and is to read it; it has found its holder gone and is to unlink it; it is to create
-- it, over what it removed; it has returned or thrown.
pub data Phase : Type 0 where
  starting : Phase
  reading : Lock → Phase
  unlinking : Lock → Option Lock → Phase
  creating : Lock → Option (Option Lock) → Phase
  done : Result Taken → Phase

abbrev pub set_file : Text → Option (Option Lock) → LockFiles → LockFiles
set_file file there files = λ other. if text_eq file other then there else files other

-- What `JSON.parse` of the file gives; null where it cannot be read.
abbrev pub parsed : Option (Option Lock) → Option Lock
parsed none = none
parsed (some previous) = previous

-- `fs.existsSync`.
unfoldable pub look : Lock → Option (Option Lock) → Phase
look mine none = creating mine none
look mine (some previous) = reading mine

-- The read, and the check of the holder.
unfoldable pub check : Processes → Text → Taker → Lock → Option Lock → Phase
unfolding is_obeyed
check ps channel_key taker mine previous =
    if is_obeyed ps taker.pid previous
    then done (err (fault adapter_lock_held (name channel_key) ∷ []))
    else unlinking mine previous

-- `fs.unlinkSync`, which throws where another process has removed the file.
unfoldable pub unlink :
    Text → Lock → Option Lock → Option (Option Lock) → LockFiles → Phase × LockFiles
unfolding text_eq
unlink file mine previous none files = (done broken, files)
unlink file mine previous (some there) files =
    (creating mine (some previous), set_file file none files)

abbrev pub taken_of : Text → Option (Option Lock) → Taken
taken_of file over = record { file = file; taken_over = is_some over; previous = parsed over }

-- `fs.openSync(file, 'wx')`, which throws where the file is there, and the write of what it holds.
unfoldable pub create :
    Text → Lock → Option (Option Lock) → Option (Option Lock) → LockFiles → Phase × LockFiles
unfolding text_eq
create file mine over none files =
    (done (ok (taken_of file over)), set_file file (some (some mine)) files)
create file mine over (some there) files = (done broken, files)

-- One call of a process inside `takeLock`, with what `ps` says at its time.
unfoldable pub step : Node → Processes → Text → Taker → Phase → LockFiles → Phase × LockFiles
unfolding look check unlink create lock_of lock_file
step node ps channel_key taker starting files =
    (look (lock_of ps channel_key taker) (files (lock_file node channel_key)), files)
step node ps channel_key taker (reading mine) files =
    (check ps channel_key taker mine (parsed (files (lock_file node channel_key))), files)
step node ps channel_key taker (unlinking mine previous) files =
    unlink (lock_file node channel_key) mine previous (files (lock_file node channel_key)) files
step node ps channel_key taker (creating mine over) files =
    create (lock_file node channel_key) mine over (files (lock_file node channel_key)) files
step node ps channel_key taker (done r) files = (done r, files)

-- A process that goes on alone, for some calls.
unfoldable pub alone : Node → Processes → Text → Taker → ℕ → Phase × LockFiles → Phase × LockFiles
unfolding step
alone node ps channel_key taker zero at = at
alone node ps channel_key taker (suc calls) at =
    alone node ps channel_key taker calls (step node ps channel_key taker at.0 at.1)

-- `takeLock`, which makes four calls at most.
unfoldable pub take_lock : Node → Processes → Text → Taker → LockFiles → Phase × LockFiles
unfolding alone
take_lock node ps channel_key taker files = alone node ps channel_key taker 4 (starting, files)

-- A process on its way through `takeLock` for a channel.
pub record Racer : Type 0 where
  pub taker : Taker
  pub phase : Phase

unfoldable pub step_at :
    Node → Processes → Text → ℕ → List Racer → LockFiles → List Racer × LockFiles
unfolding step
step_at node ps channel_key n [] files = ([], files)
step_at node ps channel_key zero (r ∷ racers) files =
    let next = step node ps channel_key r.taker r.phase files in
    (record { taker = r.taker; phase = next.0 } ∷ racers, next.1)
step_at node ps channel_key (suc n) (r ∷ racers) files =
    let rest = step_at node ps channel_key n racers files in (r ∷ rest.0, rest.1)

-- A schedule: which process makes the next call, and what `ps` says then.
unfoldable pub race :
    Node → Text → List (ℕ × Processes) → List Racer → LockFiles → List Racer × LockFiles
unfolding step_at
race node channel_key [] racers files = (racers, files)
race node channel_key ((n, ps) ∷ schedule) racers files =
    let next = step_at node ps channel_key n racers files in
    race node channel_key schedule next.0 next.1
