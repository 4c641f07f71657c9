-- ===== src/Command/Socket.antt =====
-- cmd/openshell-driver-applecontainer/main.go: instances of the driver that bind one socket path, a call
-- of the file system at a time. Between two calls of one instance the others may make any of theirs.
-- A dial can succeed only at a socket whose listener is open, and can fail at any: a listener may not
-- answer in time. Closing a listener unlinks its path by name, as the net package documents of the
-- sockets that it creates.
pub mod Handover
pub mod Race
mod Tests
use openshell_driver_appleco.Prelude.{
  ℕ, Bool, true, false, not, List, Option, none, some, eqb, ◌≡◌, ◌≢◌, if◌then◌else◌,
}
use openshell_driver_appleco.Result.{Result, ok, err}
use openshell_driver_appleco.Text.{Text}

pub data SocketError : Type 0 where
  no_dir is_symlink not_dir foreign_dir : SocketError

-- `os.Lstat` of the directory.
pub record DirInfo : Type 0 where
  pub symlink : Bool
  pub directory : Bool
  pub owner : ℕ

unfoldable pub verify_owned_dir : ℕ → Option DirInfo → Result SocketError (Unit {0})
verify_owned_dir uid none = err no_dir
verify_owned_dir uid (some dir) =
    if dir.symlink
    then err is_symlink
    else if not dir.directory
    then err not_dir
    else if eqb dir.owner uid
    then ok tt
    else err foreign_dir

-- The node at the path, with the instance that bound it and whether that one still listens.
pub record Socket : Type 0 where
  pub holder : ℕ
  pub is_open : Bool

-- The path, and the marker beside it.
pub record Place : Type 0 where
  pub socket : Option Socket
  pub marker : Option Text

unfoldable pub unlinked : Place → Place
unlinked d = record d { socket = none }

unfoldable pub left_behind : ℕ → Option Socket → Option Socket
left_behind i none = none
left_behind i (some s) = if eqb s.holder i then some (record s { is_open = false }) else some s

-- Where an instance stands: what it does next.
pub data Pc : Type 0 where
  starting : Pc  -- check the directory and stat the path
  found : Pc  -- dial the socket that is there
  stale : Pc  -- remove the socket that does not answer
  removed : Pc  -- remove its marker
  binding : Pc  -- listen
  bound : Pc  -- restrict the socket and draw a token
  claiming : Pc  -- write the marker
  serving : Pc
  drained : Pc  -- read the marker
  owned : Pc  -- remove the marker, which held the own token
  unmarked : Pc  -- remove the path
  over : Pc

-- One call of instance `i`, whose token is `token`, where the directory is as `uid` and `dir` say. A
-- move to `over` before `serving` is a start that is refused.
pub data Access (uid : ℕ) (dir : Option DirInfo) (i : ℕ) (token : Text) (d : Place)
    : Pc → Place → Pc → Type 0 where
  refuses :
      (e : SocketError)
      → verify_owned_dir uid dir ≡ err e
      → Access uid dir i token d starting d over
  finds :
      (s : Socket)
      → verify_owned_dir uid dir ≡ ok tt
      → d.socket ≡ some s
      → Access uid dir i token d starting d found
  misses :
      verify_owned_dir uid dir ≡ ok tt
      → d.socket ≡ none
      → Access uid dir i token d starting d binding
  fails_start : Access uid dir i token d starting d over
  answers :
      (s : Socket) → d.socket ≡ some s → s.is_open ≡ true → Access uid dir i token d found d over
  hangs : (s : Socket) → d.socket ≡ some s → Access uid dir i token d found d stale
  vanishes : d.socket ≡ none → Access uid dir i token d found d stale
  removes : (s : Socket) → d.socket ≡ some s → Access uid dir i token d stale (unlinked d) removed
  fails_remove : Access uid dir i token d stale d over
  clears : Access uid dir i token d removed (record d { marker = none }) binding
  fails_clear : Access uid dir i token d removed d binding
  listens :
      d.socket ≡ none
      → Access uid dir i token d binding
          (record d { socket = some (record { holder = i; is_open = true }) })
          bound
  in_use : (s : Socket) → d.socket ≡ some s → Access uid dir i token d binding d over
  fails_listen : Access uid dir i token d binding d over
  restricts : (s : Socket) → d.socket ≡ some s → Access uid dir i token d bound d claiming
  fails_restrict : Access uid dir i token d bound (unlinked d) over
  claims : Access uid dir i token d claiming (record d { marker = some token }) serving
  fails_claim :
      (m : Option Text)
      → Access uid dir i token d claiming (record { socket = none; marker = m }) over
  closes : Access uid dir i token d serving (unlinked d) drained
  unreadable : Access uid dir i token d drained d over
  differs : (m : Text) → d.marker ≡ some m → m ≢ token → Access uid dir i token d drained d over
  matches : d.marker ≡ some token → Access uid dir i token d drained d owned
  unmarks : Access uid dir i token d owned (record d { marker = none }) unmarked
  fails_unmark : Access uid dir i token d owned d unmarked
  unlinks : Access uid dir i token d unmarked (unlinked d) over
  fails_unlink : Access uid dir i token d unmarked d over
  crashes :
      {p : Pc} → Access uid dir i token d p (record d { socket = left_behind i d.socket }) over

pub record Instances : Type 0 where
  pub place : Place
  pub pc : ℕ → Pc

abbrev pub moved : ℕ → Pc → (ℕ → Pc) → ℕ → Pc
moved i p pc j = if eqb i j then p else pc j

module _ (uid : ℕ) (dir : Option DirInfo) (token : ℕ → Text) where
  pub data Turn (s : Instances) : ℕ → Instances → Type 0 where
    turn :
        {i : ℕ} {d : Place} {p : Pc}
        → Access uid dir i (token i) s.place (s.pc i) d p
        → Turn s i (record { place = d; pc = moved i p s.pc })
