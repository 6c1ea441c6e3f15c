-- ===== src/Protection/RuntimeGuard/Safety.antt =====
-- The clients of the runtime guard, over everything that can happen to it.
use webot_msg.Common.{
  ℕ, ◌<◌, ◌≡◌, refl, false, ◌&&◌, not, ◌==◌, inl, inr, ◌⊎◌, arith, if◌then◌else◌, some,
}
use webot_msg.Protection.RuntimeGuard.{
  GuardGeneration, RuntimeOperation, RuntimeGuard, EnableConfig, Dialer, enable, disable,
  begin_operation, done_runtime, new_runtime_guard,
}
use webot_msg.Protection.RuntimeGuard.Counts.{in_use, in_use_positive}
use webot_msg.Protection.RuntimeGuard.Lifecycle.{IsOpen, IsClosed, is_current}
use webot_msg.Protection.RuntimeGuard.Switching.{Orderly, disable-Orderly}
use webot_msg.Protection.RuntimeGuard.Enabling.{enable-Orderly}
use webot_msg.Protection.RuntimeGuard.Operations.{begin_operation-Orderly}
use webot_msg.Protection.RuntimeGuard.Finishing.{used-IsOpen, done_runtime-Orderly}

-- The methods, in any order; an operation that was begun may be finished any number of times.
pub data Happens (s : RuntimeGuard) : RuntimeGuard → Type 0 where
  enables : (d : Dialer) (cfg : EnableConfig) → Happens s (enable d cfg s).1
  disables : Happens s (disable s)
  begins : Happens s (begin_operation s).1
  finishes : (i : ℕ) → i < s.begun → Happens s (done_runtime i s)

pub data Reachable : RuntimeGuard → Type 0 where
  starts : (gen : GuardGeneration) (op : RuntimeOperation) → Reachable (new_runtime_guard gen op)
  then_happens : {s t : RuntimeGuard} → Reachable s → Happens s t → Reachable t

start-Orderly : (gen : GuardGeneration) (op : RuntimeOperation) → Orderly (new_runtime_guard gen op)
unfolding new_runtime_guard
start-Orderly gen op = record {
  sound = record {
    life = λ a i. absurd (omega (arith, i));
    current_in = λ a e. absurd (cc);
    owned = λ a i. absurd (omega (arith, i));
    apart = λ a b i j e. absurd (omega (arith, i));
    unmade = λ c i. refl;
    ranged = λ i b. absurd (omega (arith, b));
  };
  counted = λ a i. absurd (omega (arith, i));
  currency = λ a i. absurd (omega (arith, i));
}

Happens-Orderly : {s t : RuntimeGuard} → Happens s t → Orderly s → Orderly t
Happens-Orderly {s} (enables d cfg) o = enable-Orderly s d cfg o
Happens-Orderly {s} disables o = disable-Orderly s o
Happens-Orderly {s} begins o = begin_operation-Orderly s o
Happens-Orderly {s} (finishes i b) o = done_runtime-Orderly s i b o

Reachable-Orderly : {s : RuntimeGuard} → Reachable s → Orderly s
Reachable-Orderly (starts gen op) = start-Orderly gen op
Reachable-Orderly (then_happens past step) = Happens-Orderly step (Reachable-Orderly past)

-- Whatever was called before, the guard switched on and off included: an operation that is not
-- finished has a generation whose client was never closed and is still held.
pub client_in_use_is_open :
    (s : RuntimeGuard) (i : ℕ)
    → Reachable s
    → i < s.begun
    → (s.operations i).finished ≡ false
    → let gen = s.generations (s.operations i).generation in
      (gen.client ≡ some gen.guard.client) × (s.closings gen.guard.client ≡ 0)
client_in_use_is_open s i past begun busy =
    let o = Reachable-Orderly past in
    let a = (s.operations i).generation in
    let inside = o.sound.ranged i begun in
    let used : 0 < (s.generations a).refs =
      omega (arith, o.counted a inside, in_use_positive s.begun i s.operations begun busy) in
    let (held, never, busy) = used-IsOpen (s.generations a) _ used (o.sound.life a inside) in
    (held, never)

closings_of :
    (gen : GuardGeneration) (n : ℕ)
    → IsOpen gen n ⊎ IsClosed gen n
    → n ≡ (if gen.retired && (gen.refs == 0) then 1 else 0)
closings_of gen n (inl (held, never, busy)) = simp busy never
closings_of gen n (inr (gone, once, idle)) = simp idle once

-- Whatever was called before: the client of a generation was closed exactly once if the generation
-- is no longer the current one and no operation works on it, and never otherwise.
pub client_closed_once_idle :
    (s : RuntimeGuard) (a : ℕ)
    → Reachable s
    → a < s.allocated
    → s.closings (s.generations a).guard.client
      ≡ (if not (is_current s.current a) && (in_use a s.begun s.operations == 0) then 1 else 0)
client_closed_once_idle s a past inside =
    let o = Reachable-Orderly past in
    rw (← o.counted a inside, ← o.currency a inside)
      (closings_of (s.generations a) _ (o.sound.life a inside))
