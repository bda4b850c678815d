-- ===== src/SocketHandler/Epoll.antt =====
-- src/socket/event_poller.cpp over the kernel's epoll, which is a parameter.
use calabash.Base.{
  inl, inr, Bool-cases, Bool-cases, ℕ, ◌+◌, ◌≡◌, ◌≤◌, refl, ℤ, Bool, true, Option, none, some, List,
  length, if◌then◌else◌,
}
use calabash.Socket.{is_open, minus_one}
use calabash.SocketHandler.{Event, connects, hangs_up, fails, is_readable, is_other}

-- The flags of an event.
pub record Events : Type 0 where
  pub one_shot : Bool
  pub readable : Bool
  pub hang_up : Bool
  pub failure : Bool
  pub edge : Bool

-- What `data.ptr` points at: the server's socket, or the object in a slot of the pool.
pub data Target : Type 0 where
  the_server : Target
  slot : ℕ → Target

pub data CtlOp : Type 0 where
  ctl_add ctl_mod ctl_del : CtlOp

pub record Ready : Type 0 where
  pub ptr : Target
  pub events : Events

pub record EpollCalls (K : Type 0) : Type 0 where
  pub epoll_create : ℕ → K → Option ℕ × K
  pub epoll_ctl : ℤ → CtlOp → ℤ → Events → Target → K → K
  pub epoll_wait : ℤ → ℕ → ℤ → K → Option (List Ready) × K
  pub close_epoll : ℤ → K → K

-- `events`: the length of the array, if there is one.
pub record Epoll : Type 0 where
  pub epfd : ℤ
  pub max_connections : ℕ
  pub events : Option ℕ
  pub et : Bool

abbrev pub new_epoll : Bool → Epoll
new_epoll et = record { epfd = ℤ.pos 0; max_connections = 0; events = none; et = et }

-- What a reported event asks of the loop: the first flag that it tests.
unfoldable pub event_of : Target → Events → Event
event_of the_server e = connects
event_of (slot s) e =
    if e.hang_up
    then hangs_up s
    else if e.failure
    then fails s
    else if e.readable
    then is_readable s
    else is_other s

module _ {K : Type 0} (calls : EpollCalls K) where
  unfoldable pub ctrl : Epoll → ℤ → Target → Events → CtlOp → K → K
  ctrl p fd ptr events op w =
      calls.epoll_ctl p.epfd op fd (if p.et then record events { edge = true } else events) ptr w

  abbrev pub add_fd : Epoll → ℤ → Target → Events → K → K
  add_fd p fd ptr events = ctrl p fd ptr events ctl_add

  abbrev pub mod_fd : Epoll → ℤ → Target → Events → K → K
  mod_fd p fd ptr events = ctrl p fd ptr events ctl_mod

  abbrev pub del_fd : Epoll → ℤ → Target → Events → K → K
  del_fd p fd ptr events = ctrl p fd ptr events ctl_del

  unfoldable pub created : ℕ → Epoll → Option ℕ × K → Epoll × K
  created n p (none, w) = (record p { max_connections = n; epfd = minus_one }, w)
  created n p (some fd, w) =
      (record p { max_connections = n; epfd = ℤ.pos fd; events = some (n + 1) }, w)

  unfoldable pub create : ℕ → Epoll → K → Epoll × K
  unfolding created
  create n p w = created n p (calls.epoll_create (n + 1) w)

  unfoldable pub wait : Epoll → ℤ → K → Option (List Ready) × K
  wait p ms w = calls.epoll_wait p.epfd (p.max_connections + 1) ms w

  -- The destructor.
  unfoldable pub destroy : Epoll → K → Epoll × K
  destroy p w =
      if is_open p.epfd
      then (record p { epfd = ℤ.pos 0; events = none }, calls.close_epoll p.epfd w)
      else (record p { events = none }, w)

  -- What a caller makes of a poller.
  pub data Used : Epoll → Type 0 where
    fresh : (et : Bool) → Used (new_epoll et)
    creates : (n : ℕ) (p : Epoll) (w : K) → Used p → Used (create n p w).0
    destroys : (p : Epoll) (w : K) → Used p → Used (destroy p w).0

  -- What the kernel documents: at most `maxevents` events are reported, and none on a number that is
  -- no descriptor or the standard input.
  pub record EpollLaws : Type 0 where
    pub at_most :
        (fd : ℤ) (n : ℕ) (ms : ℤ) (w v : K) (r : List Ready)
        → calls.epoll_wait fd n ms w ≡ (some r, v)
        → length r ≤ n
    pub only_open :
        (fd : ℤ) (n : ℕ) (ms : ℤ) (w v : K) (r : List Ready)
        → calls.epoll_wait fd n ms w ≡ (some r, v)
        → is_open fd ≡ true

  -- The array of a poller that has a descriptor is as long as `wait` says.
  IsSized : Epoll → Type 0
  IsSized p = is_open p.epfd ≡ true → p.events ≡ some (p.max_connections + 1)

  created-IsSized : (n : ℕ) (p : Epoll) (r : Option ℕ × K) → IsSized (created n p r).0
  unfolding IsSized created
  created-IsSized n p (none, w) h = cc
  created-IsSized n p (some fd, w) h = refl

  destroy-IsSized : (p : Epoll) (w : K) → IsSized (destroy p w).0
  unfolding IsSized destroy
  destroy-IsSized p w = elim (Bool-cases (is_open p.epfd)) [
    | inl e ↦ rw e (λ h. cc)
    | inr e ↦ rw e (λ h. cc)
  ]

  Used-IsSized : {p : Epoll} → Used p → IsSized p
  unfolding IsSized create
  Used-IsSized (fresh et) = λ h. cc
  Used-IsSized (creates n p w u) = created-IsSized n p (calls.epoll_create (n + 1) w)
  Used-IsSized (destroys p w u) = destroy-IsSized p w

  -- Whatever calls of `create` and of the destructor came before, also failed ones, the events that a
  -- call of `wait` reports fit into the array that is there.
  pub wait-fits :
      (laws : EpollLaws) (p : Epoll) (ms : ℤ) (w v : K) (r : List Ready)
      → Used p
      → wait p ms w ≡ (some r, v)
      → (size : ℕ) × (p.events ≡ some size) × (length r ≤ size)
  unfolding wait IsSized
  wait-fits laws p ms w v r used e = (
    p.max_connections + 1,
    Used-IsSized used (laws.only_open p.epfd (p.max_connections + 1) ms w v r e),
    laws.at_most p.epfd (p.max_connections + 1) ms w v r e,
  )
