-- ===== src/PriceFeed/Start.antt =====
-- `start` of tee_gateway/price_feed/feed.py, called from several threads: the test for a running
-- thread holds the lock, the creation of the thread does not.
use tee_gateway.Prelude.{
  ℕ, zero, suc, ◌+◌, ◌≡◌, refl, max, arith, Option, none, some, ltb, if◌then◌else◌,
}

-- The callers that have not reached the test, those between the test and the creation, and the
-- refresh threads that run.
pub record Starting : Type 0 where
  pub waiting : ℕ
  pub passed : ℕ
  pub threads : ℕ

-- The two atomic steps of a caller of `start`.
pub data Action : Type 0 where
  test_running : Action
  create_thread : Action

abbrev pub starting : ℕ → ℕ → ℕ → Starting
starting w p t = record { waiting = w; passed = p; threads = t }

unfoldable pub step_at : Action → ℕ → ℕ → ℕ → Option Starting
step_at test_running zero p t = none
step_at test_running (suc w) p t = some (if ltb 0 t then starting w p t else starting w (suc p) t)
step_at create_thread w zero t = none
step_at create_thread w (suc p) t = some (starting w p (suc t))

-- One step of some caller, or `none` if no caller is there.
unfoldable pub start_step : Action → Starting → Option Starting
unfolding step_at
start_step a s = step_at a s.waiting s.passed s.threads

-- The states that some order of steps leads to.
pub data Reaches : Starting → Starting → Type 0 where
  here : {s : Starting} → Reaches s s
  next : {s t u : Starting} (a : Action) → start_step a s ≡ some t → Reaches t u → Reaches s u

pass_all : (n p m : ℕ) → n + p ≡ m → Reaches (starting n p 0) (starting 0 m 0)
unfolding start_step
pass_all zero p m h = let same : p ≡ m = omega (arith, h) in rw same here
pass_all (suc n) p m h = next test_running refl (pass_all n (suc p) m (omega (arith, h)))

create_all : (n t m : ℕ) → n + t ≡ m → Reaches (starting 0 n t) (starting 0 0 m)
unfolding start_step
create_all zero t m h = let same : t ≡ m = omega (arith, h) in rw same here
create_all (suc n) t m h = next create_thread refl (create_all n (suc t) m (omega (arith, h)))

Reaches-trans : {s t u : Starting} → Reaches s t → Reaches t u → Reaches s u
Reaches-trans here r = r
Reaches-trans (next a e q) r = next a e (Reaches-trans q r)

-- Any number of concurrent callers of `start` can each create a refresh thread: a schedule exists
-- after which as many threads run as there were callers.
pub concurrent_start : (n : ℕ) → Reaches (starting n 0 0) (starting 0 0 n)
concurrent_start n = Reaches-trans (pass_all n 0 n (omega arith)) (create_all n 0 n (omega arith))

-- A caller whose two steps run without another caller between them leaves exactly one thread if none
-- ran before, and otherwise those that ran.
pub serial_start : (w t : ℕ) → Reaches (starting (suc w) 0 t) (starting w 0 (max 1 t))
unfolding start_step
serial_start w zero = next test_running refl (next create_thread refl here)
serial_start w (suc t) =
    let same : max 1 (suc t) ≡ suc t = omega arith in
    rw same (next {t = starting w 0 (suc t)} test_running (ground arith) here)
