-- ===== src/Hub/Sample.antt =====
-- A loop without connections and one with a connection, on a reactor over `ListEpoll`, for the tests.
use mu_muduo.Common.{
  ℕ, ◌≡◌, refl, sym, ap, ◌∙◌, true, false, [], ◌∷◌, none, some, lookup, nat_eq, inl, arith,
  replicate,
}
use mu_muduo.Buffer.{Buffer, readable_bytes}
use mu_muduo.Channel.{Channel, make_channel, shape}
use mu_muduo.Reactor.{k_added}
use mu_muduo.Reactor.Lifetime.{IsFree}
use mu_muduo.Reactor.ListEpoll.{list_epoll, one_added, one_added-Inv, only, lookup_only}
use mu_muduo.Port.OnReactor.{shape_found}
use mu_muduo.Connection.{connected}
use mu_muduo.Hub.{Stored, Hub, conn_channel}
use mu_muduo.Hub.Apart.{HubInv, IsSound}
use mu_muduo.Hub.Steps.{some_inj}

abbrev pub quiet : Hub list_epoll
quiet = record {
  reactor = record { heap = []; channels = []; event_list_size = 16; kernel = [] };
  conns = [];
  notifies = true;
  doomed = [];
}

pub nothing : {A : Type 0} (x : A) → none ≡ some x → ⊥
nothing x h = cc

pub quiet-HubInv : HubInv list_epoll (λ k fd. tt) quiet
unfolding lookup
quiet-HubInv = record {
  inv = record {
    consistent = λ a c h. absurd (nothing c h);
    distinct = λ a b c d h h' e. absurd (nothing c h);
    owned = λ fd n h. absurd (nothing n h);
    pointed = λ fd a h. absurd (nothing a h);
  };
  sound = (λ o c h. absurd (nothing c h), λ a d h. absurd (nothing d h));
  waiting = tt;
}

pub quiet-IsFree : (o fd : ℕ) → IsFree list_epoll o fd quiet.reactor
unfolding lookup
quiet-IsFree o fd = record {
  address = refl;
  descriptor = λ b d h. absurd (nothing d h);
  entry = refl;
  unknown = refl;
}

-- The connection of descriptor 8, open, as it is in this loop.
abbrev pub open_channel : Channel
open_channel = record (conn_channel 41 8) {
  events = 3;
  index = k_added;
  tie = some 41;
  tied = true;
}

abbrev pub empty_buffer : Buffer
empty_buffer = record { bytes = replicate 16 0; reader_index = 8; writer_index = 8 }

abbrev pub open_one : Stored
open_one = record {
  state = connected;
  port = tt;
  input = empty_buffer;
  output = empty_buffer;
  high_water_mark = 64;
  write_complete_set = true;
  high_water_set = true;
  trace = [];
}

abbrev pub one_open : Hub list_epoll
one_open = record {
  reactor = one_added 41 open_channel;
  conns = (41, open_one) ∷ [];
  notifies = true;
  doomed = [];
}

pub open_one-IsSound : IsSound list_epoll (λ k fd. tt) 41 one_open.reactor open_one
unfolding readable_bytes conn_channel shape make_channel
open_one-IsSound = record {
  reads = true;
  writes = false;
  sound = record {
    input_valid = omega arith;
    output_valid = omega arith;
    interest = record {
      channel = open_channel;
      found = lookup_only 41 open_channel;
      waits = refl;
      inv = one_added-Inv 41 open_channel refl;
      own = λ d l. shape_found open_channel d (lookup_only 41 open_channel) l;
      others = λ b ne. refl;
    };
    armed = λ _. refl;
  };
  mine = λ d l. rw (some_inj (sym l ∙ lookup_only 41 open_channel)) refl;
}

pub one_open-HubInv : HubInv list_epoll (λ k fd. tt) one_open
unfolding lookup
one_open-HubInv = record {
  inv = one_added-Inv 41 open_channel refl;
  sound = (
    λ o c l. let (same, here) = only 41 o open_one c l in rw (same, here) open_one-IsSound,
    λ a d l. let (same, here) = only 41 a open_channel d l in inl (open_one, rw here refl),
  );
  waiting = tt;
}

pub one_open-IsFree : IsFree list_epoll 40 7 one_open.reactor
unfolding lookup conn_channel make_channel
one_open-IsFree = record {
  address = refl;
  descriptor = λ b d h e. no_both d.fd (ap (λ x. x.fd) (only 41 b open_channel d h).0) e;
  entry = refl;
  unknown = refl;
}
  where
    no_both : (n : ℕ) → n ≡ 8 → n ≡ 7 → ⊥
    no_both n e f = omega arith
