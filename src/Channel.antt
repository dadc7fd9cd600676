-- ===== src/Channel.antt =====
-- Channel.h and Channel.cc: a descriptor with the events it waits for, the events that arrived, and
-- the handlers bound to them. The calls into the loop (`update`, `remove`) are those of Reactor.
pub mod Events
pub mod Callbacks
mod Tests
use mu_muduo.Common.{
  ℕ, ◌+◌, ◌-◌, ◌^◌, ◌≡◌, Bool, true, false, not, ◌&&◌, List, [], ◌∷◌, ◌++◌, Option, none, some, ℤ,
  negsuc, bit_and, bit_or, if◌then◌else◌, ◌==◌,
}

-- <sys/epoll.h>
abbrev pub epoll_in : ℕ
epoll_in = 1

abbrev pub epoll_pri : ℕ
epoll_pri = 2

abbrev pub epoll_out : ℕ
epoll_out = 4

abbrev pub epoll_err : ℕ
epoll_err = 8

abbrev pub epoll_hup : ℕ
epoll_hup = 16

abbrev pub k_none_event : ℕ
k_none_event = 0

abbrev pub k_read_event : ℕ
k_read_event = bit_or epoll_in epoll_pri

abbrev pub k_write_event : ℕ
k_write_event = epoll_out

-- The member functions that the program binds as callbacks; a number names the object.
pub data Handler : Type 0 where
  loop_read : ℕ → Handler
  accept_read : ℕ → Handler
  conn_read : ℕ → Handler
  conn_write : ℕ → Handler
  conn_close : ℕ → Handler
  conn_error : ℕ → Handler

-- `tie` is the object that `tie_` watches. `events` and `revents` are bit patterns of 32 bits.
pub record Channel : Type 0 where
  pub fd : ℕ
  pub events : ℕ
  pub revents : ℕ
  pub index : ℤ
  pub tie : Option ℕ
  pub tied : Bool
  pub read_callback : Option Handler
  pub write_callback : Option Handler
  pub close_callback : Option Handler
  pub error_callback : Option Handler

unfoldable pub make_channel : ℕ → Channel
make_channel fd = record {
  fd = fd;
  events = 0;
  revents = 0;
  index = negsuc 0;
  tie = none;
  tied = false;
  read_callback = none;
  write_callback = none;
  close_callback = none;
  error_callback = none;
}

unfoldable pub set_tie : ℕ → Channel → Channel
set_tie obj c = record c { tie = some obj; tied = true }

unfoldable pub set_revents : ℕ → Channel → Channel
set_revents r c = record c { revents = r }

unfoldable pub set_index : ℤ → Channel → Channel
set_index i c = record c { index = i }

-- `~mask` on 32 bits.
abbrev pub complement : ℕ → ℕ
complement mask = 2 ^ 32 - 1 - mask

-- The assignments to `events_` of the five functions that go on to call `update`.
unfoldable pub read_on : Channel → Channel
read_on c = record c { events = bit_or c.events k_read_event }

unfoldable pub read_off : Channel → Channel
read_off c = record c { events = bit_and c.events (complement k_read_event) }

unfoldable pub write_on : Channel → Channel
write_on c = record c { events = bit_or c.events k_write_event }

unfoldable pub write_off : Channel → Channel
write_off c = record c { events = bit_and c.events (complement k_write_event) }

unfoldable pub all_off : Channel → Channel
all_off c = record c { events = k_none_event }

-- A bit test in a condition.
abbrev pub has : ℕ → ℕ → Bool
has bits mask = not (bit_and bits mask == 0)

unfoldable pub is_none_event : Channel → Bool
is_none_event c = c.events == k_none_event

unfoldable pub is_reading : Channel → Bool
is_reading c = has c.events k_read_event

unfoldable pub is_writing : Channel → Bool
is_writing c = has c.events k_write_event

-- A callback that is set is called.
call : Option Handler → List Handler
call none = []
call (some h) = h ∷ []

-- The handlers that run, in order. None of them changes `revents_` or the callbacks.
unfoldable pub handle_event_with_guard : Channel → List Handler
unfolding call
handle_event_with_guard c =
    (if has c.revents epoll_hup && not (has c.revents epoll_in) then call c.close_callback else [])
    ++ ((if has c.revents epoll_err then call c.error_callback else [])
        ++ ((if has c.revents (bit_or epoll_in epoll_pri) then call c.read_callback else [])
            ++ (if has c.revents epoll_out then call c.write_callback else [])))

-- `alive` tells of an object whether `tie_.lock()` still finds it.
unfoldable pub handle_event : (ℕ → Bool) → Channel → List Handler
unfolding handle_event_with_guard
handle_event alive c =
    if c.tied
    then elim c.tie [ none ↦ [] | some obj ↦ if alive obj then handle_event_with_guard c else [] ]
    else handle_event_with_guard c

-- What is fixed when a channel is made: its descriptor and its callbacks.
unfoldable pub shape : Channel → Channel
shape c = record c { events = 0; revents = 0; index = negsuc 0; tie = none; tied = false }
