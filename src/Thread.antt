-- ===== src/Thread.antt =====
-- Thread.cc and .h, CurrentThread.cc and .h: a thread object with its name and identifier. The number
-- that the kernel gives a thread is an argument.
pub mod Names
mod Tests
use mu_muduo.Common.{
  ℕ, ◌+◌, ◌-◌, ◌%◌, ◌^◌, Bool, true, false, not, ◌&&◌, List, [], ◌∷◌, ◌++◌, take, length, ltb, ◌==◌,
  if◌then◌else◌, decimal, text_eq, text_beq,
}

-- `t_cachedTid` of one thread; 0 is not a thread's number.
pub cached_tid : ℕ → ℕ → ℕ
cached_tid gettid cache = if cache == 0 then gettid else cache

-- The number returned, and the cache.
pub tid : ℕ → ℕ → ℕ × ℕ
unfolding cached_tid
tid gettid cache =
    let cache' = if cache == 0 then cached_tid gettid cache else cache in (cache', cache')

-- `detached` tells that the destructor gave the running thread up.
pub record Thread : Type 0 where
  pub started : Bool
  pub joined : Bool
  pub tid : ℕ
  pub name : List ℕ
  pub detached : Bool

-- `%d` of the `int32_t` with these 32 bits.
pub int32_text : ℕ → List ℕ
int32_text n = if ltb n (2 ^ 31) then decimal n else 45 ∷ decimal (2 ^ 32 - n)

-- `++numCreated_`, an atomic of 32 bits, which wraps.
unfoldable pub count_up : ℕ → ℕ
count_up num_created = (num_created + 1) % 2 ^ 32

-- What `snprintf` puts into a buffer of 32 bytes: "Thread%d", of which at most 31 characters stay.
pub default_name : ℕ → List ℕ
unfolding int32_text
default_name num = take 31 (84 ∷ 104 ∷ 114 ∷ 101 ∷ 97 ∷ 100 ∷ int32_text num)

pub set_default_name : ℕ → Thread → Thread × ℕ
unfolding default_name count_up
set_default_name num_created t =
    let num = count_up num_created in
    (if text_beq t.name [] then record t { name = default_name num } else t, num)

pub make_thread : ℕ → List ℕ → Thread × ℕ
unfolding set_default_name
make_thread num_created name =
    set_default_name num_created
      (record { started = false; joined = false; tid = 0; name = name; detached = false })

-- `start`, before the new thread runs; the new thread stores its number and posts the semaphore.
unfoldable pub begin_thread : Thread → Thread
begin_thread t = record t { started = true }

unfoldable pub store_tid : ℕ → Thread → Thread
store_tid number t = record t { tid = number }

unfoldable pub begin_join : Thread → Thread
begin_join t = record t { joined = true }

-- The destructor.
unfoldable pub destroy_thread : Thread → Thread
destroy_thread t = if t.started && not t.joined then record t { detached = true } else t
