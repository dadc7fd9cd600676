-- ===== src/Port.antt =====
-- What a connection asks of its channel and, through it, of the loop's poller: the interface between
-- TcpConnection.cc and Channel.h. `Port.OnReactor` fills it with the reactor.
pub mod OnReactor
use mu_muduo.Common.{◌≡◌, Bool, true, false, Outcome, ok}

-- `Interest r w s`: the channel waits for reading, for writing. Each call returns and moves its own
-- wish; `tie` and `remove` leave what the channel waits for.
pub record Port (S : Type 0) : Type 1 where
  pub is_writing : S → Outcome Bool
  pub enable_reading : S → Outcome S
  pub enable_writing : S → Outcome S
  pub disable_writing : S → Outcome S
  pub disable_all : S → Outcome S
  pub tie : S → Outcome S
  pub remove : S → Outcome S
  pub Interest : Bool → Bool → S → Type 0
  pub is_writing_lem : (r w : Bool) (s : S) → Interest r w s → is_writing s ≡ ok w
  pub reads :
      (r w : Bool) (s : S)
      → Interest r w s
      → (s' : S) × (enable_reading s ≡ ok s') × Interest true w s'
  pub writes :
      (r w : Bool) (s : S)
      → Interest r w s
      → (s' : S) × (enable_writing s ≡ ok s') × Interest r true s'
  pub stops_writing :
      (r w : Bool) (s : S)
      → Interest r w s
      → (s' : S) × (disable_writing s ≡ ok s') × Interest r false s'
  pub stops :
      (r w : Bool) (s : S)
      → Interest r w s
      → (s' : S) × (disable_all s ≡ ok s') × Interest false false s'
  pub ties : (r w : Bool) (s : S) → Interest r w s → (s' : S) × (tie s ≡ ok s') × Interest r w s'
  pub removes :
      (r w : Bool) (s : S) → Interest r w s → (s' : S) × (remove s ≡ ok s') × Interest r w s'
