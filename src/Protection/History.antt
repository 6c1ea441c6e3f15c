-- ===== src/Protection/History.antt =====
-- Everything that can happen to a bot in the database, whatever the network does to the calls.
pub mod Budget
pub mod Silence
use webot_msg.Common.{
  ℕ, zero, suc, ◌+◌, ◌≤◌, ◌<◌, ◌≡◌, refl, sym, ap, subst, ◌∙◌, ◌⊎◌, inl, inr, Bool, true, false,
  List, [], ◌∷◌, arith, Text, Result, ok, err, tail,
}
use webot_msg.Common.Int.{ℤ, pos, leb_ℤ}
use webot_msg.Strconv.{itoa}
use webot_msg.Redis.{Redis, max_exact, or_else, Response, array, status, integer, raised}
use webot_msg.Protection.Keys.{state_key, active_key, queue_key, keys_distinct}
use webot_msg.Protection.Policy
use webot_msg.Protection.Policy.{BotState, Limits, activate}
use webot_msg.Protection.Policy.Steps
use webot_msg.Protection.Policy.Steps.{Step, Step-count}
use webot_msg.Protection.Policy.Settled.{Quiet, Quiet-trans, starts_conversation}
use webot_msg.Protection.Scripts
use webot_msg.Protection.Scripts.{
  is_set, reason_of, frozen_field, reason_field, pending_field, count_field,
}
use webot_msg.Protection.Refine.Writes.{Distinct, Represents, pop-Represents}
use webot_msg.Protection.Refine.Sends.{
  reserve_normal_send-Agrees, check_time_window-Agrees, record_reminder_send-Represents,
}
use webot_msg.Protection.Refine.Releases.{
  release_normal_send-Agrees, record_active_conversation-Represents,
}
use webot_msg.Protection.Refine.Ingress.{acquire_or_enqueue-Agrees}
use webot_msg.Protection.RedisGuard.{
  RedisGuardConfig, limits, threshold, milliseconds, PayloadCodec, Server, Delivery, answered,
  lost_request, lost_reply, tried_again, first_fate, deliver, call, run_script, evaluated,
  reserve_normal_send, release_normal_send, record_reminder_send, record_active_conversation,
  check_time_window, acquire_or_enqueue, drop_front,
}
use webot_msg.Protection.RedisGuard.Correct.{Holds}

-- How often a command runs at most, with this fate.
abbrev pub runs_of : Delivery → ℕ
runs_of answered = 1
runs_of (lost_request e) = 1
runs_of (lost_reply e) = 1
runs_of (tried_again fate) = suc (runs_of fate)

-- The same of the next command.
abbrev pub runs : List Delivery → ℕ
runs fates = runs_of (first_fate fates)

some_run : (fate : Delivery) → 0 < runs_of fate
some_run answered = omega arith
some_run (lost_request e) = omega arith
some_run (lost_reply e) = omega arith
some_run (tried_again fate) = omega arith

module _ (r : Redis) (codec : PayloadCodec) (g : RedisGuardConfig) (bot : Text) where
  -- Between two conversations. `elsewhere` is the rest of the world: time passes, keys expire, and
  -- commands for other bots run; the state hash of this bot stays, and its queue stays or expires.
  pub data Calm (s : Server r) : Server r → Type 0 where
    reserves : Calm s (reserve_normal_send r g bot s).1
    releases : Calm s (release_normal_send r g bot s).1
    reminds : Calm s (record_reminder_send r g bot s).1
    checks : Calm s (check_time_window r g bot s).1
    takes_in : (text : Text) → Calm s (acquire_or_enqueue r codec g bot text s).1
    drops : Calm s (drop_front r codec g bot s).1
    elsewhere :
        (t : Server r)
        → ((f : Text)
            → r.hget (state_key g.key_prefix bot) f t.db
              ≡ r.hget (state_key g.key_prefix bot) f s.db)
        → ((r.lrange (queue_key g.key_prefix bot) t.db ≡ r.lrange (queue_key g.key_prefix bot) s.db)
            ⊎ (r.lrange (queue_key g.key_prefix bot) t.db ≡ []))
        → Calm s t

  -- Events in a row, conversations among them, with so many runs of commands at most.
  pub data History (s : Server r) : ℕ → Server r → Type 0 where
    start : History s zero s
    calmly : {n : ℕ} {t u : Server r} → History s n t → Calm t u → History s (n + runs t.fates) u
    talks :
        {n : ℕ} {t : Server r}
        → History s n t
        → History s (n + runs t.fates) (record_active_conversation r g bot t).1

  -- The same with no conversation.
  pub data CalmHistory (s : Server r) : ℕ → Server r → Type 0 where
    start : CalmHistory s zero s
    calmly :
        {n : ℕ} {t u : Server r} → CalmHistory s n t → Calm t u → CalmHistory s (n + runs t.fates) u

  pub evaluated_db : (p : Response × r.Db) → (evaluated r p).1 ≡ p.1
  evaluated_db (array items, db) = refl
  evaluated_db (status t, db) = refl
  evaluated_db (integer n, db) = refl
  evaluated_db (raised, db) = refl

  abbrev pub Here : r.Db → BotState → Type 0
  Here =
      Represents r (state_key g.key_prefix bot) (active_key g.key_prefix bot)
        (queue_key g.key_prefix bot)

  -- From `b` there is a way to what the database holds now, with so many more messages at most.
  abbrev pub Follows : (BotState → BotState → Type 0) → ℕ → BotState → r.Db → Type 0
  Follows Way k b db = (b' : BotState) × Way b b' × Here db b' × (b'.count ≤ k + b.count)

  -- One run of a command is a way with one more message at most.
  abbrev pub Runs : (BotState → BotState → Type 0) → (r.Db → r.Db) → Type 0
  Runs Way run =
      (b : BotState) (db : r.Db) → Here db b → b.count < max_exact → Follows Way 1 b (run db)

  module _ {ℓ} (Way : BotState → BotState → Type 0) (stay : (b : BotState) → Way b b)
      (trans : (a b c : BotState) → Way a b → Way b c → Way a c) {A : Type ℓ}
      (command : r.Db → Result A × r.Db) (once : Runs Way (λ db. (command db).1)) where
    -- However often the command runs before the client gives up or has its answer, the policy
    -- follows each run.
    deliver-Follows :
        (fate : Delivery) (b : BotState) (db : r.Db)
        → Here db b
        → b.count + runs_of fate ≤ max_exact
        → Follows Way (runs_of fate) b (deliver r command fate db).1
    unfolding deliver
    deliver-Follows answered b db h small = once b db h (omega arith)
    deliver-Follows (lost_request e) b db h small = (b, stay b, h, omega arith)
    deliver-Follows (lost_reply e) b db h small = once b db h (omega arith)
    deliver-Follows (tried_again fate) b db h small =
        let (b1, way, h1, c1) = once b db h (omega arith) in
        let (b2, more, h2, c2) = deliver-Follows fate b1 (command db).1 h1 (omega arith) in
        (b2, trans b b1 b2 way more, h2, omega arith)

    pub call-Follows :
        (s : Server r) (b : BotState)
        → Here s.db b
        → b.count + runs s.fates ≤ max_exact
        → Follows Way (runs s.fates) b (call r command s).1.db
    unfolding call
    call-Follows s b h small = deliver-Follows (first_fate s.fates) b s.db h small

  calm_once :
      {b b' : BotState} (db : r.Db) (st : Step (limits g) b b')
      → starts_conversation st ≡ false
      → Here db b'
      → Follows (Quiet (limits g)) 1 b db
  calm_once {b} {b'} db st q h =
      let more = Step-count st in (b', Quiet.next Quiet.start st q, h, omega (arith, more))

  -- The runs of a script that makes calm steps.
  script-Follows :
      (script : r.Db → Response × r.Db)
      → Runs (Quiet (limits g)) (λ db. (script db).1)
      → (s : Server r) (b : BotState) → Here s.db b
      → b.count + runs s.fates ≤ max_exact
      → Follows (Quiet (limits g)) (runs s.fates) b (run_script r script s).1.db
  unfolding run_script
  script-Follows script once s b h small =
      call-Follows (Quiet (limits g)) (λ c. Quiet.start) (λ x y z p q. Quiet-trans p q)
        (λ db. evaluated r (script db))
        (λ c db here room. rw (evaluated_db (script db)) (once c db here room)) s b h small

  abbrev keys :
      Distinct
        (state_key g.key_prefix bot)
        (active_key g.key_prefix bot)
        (queue_key g.key_prefix bot)
  keys = keys_distinct g.key_prefix bot

  elsewhere-Follows :
      (db db' : r.Db) (b : BotState)
      → Here db b
      → ((f : Text)
          → r.hget (state_key g.key_prefix bot) f db' ≡ r.hget (state_key g.key_prefix bot) f db)
      → ((r.lrange (queue_key g.key_prefix bot) db' ≡ r.lrange (queue_key g.key_prefix bot) db)
          ⊎ (r.lrange (queue_key g.key_prefix bot) db' ≡ []))
      → Follows (Quiet (limits g)) 0 b db'
  unfolding is_set reason_of
  elsewhere-Follows db db' b h fields queue =
      let now = r.pttl (active_key g.key_prefix bot) db' in
      let passed = Quiet.next Quiet.start (Step.passes now) refl in
      elim queue [
        | inl kept ↦ (
          record b { window = now },
          passed,
          record {
            frozen_as = rw (fields frozen_field, is_set) h.frozen_as;
            reason_as = rw (fields reason_field, reason_of) h.reason_as;
            pending_as = rw (fields pending_field, is_set) h.pending_as;
            count_as = rw (fields count_field) h.count_as;
            window_as = refl;
            queue_as = kept ∙ h.queue_as;
          },
          omega arith,
        )
        | inr gone ↦ (
          record b { window = now; queue = [] },
          Quiet.next passed Step.expires refl,
          record {
            frozen_as = rw (fields frozen_field, is_set) h.frozen_as;
            reason_as = rw (fields reason_field, reason_of) h.reason_as;
            pending_as = rw (fields pending_field, is_set) h.pending_as;
            count_as = rw (fields count_field) h.count_as;
            window_as = refl;
            queue_as = gone;
          },
          omega arith,
        )
      ]

  module _ (alive : leb_ℤ (milliseconds g.queue_ttl) (pos 0) ≡ false) where
    pub Calm-Follows :
        {s t : Server r} (b : BotState)
        → Here s.db b
        → b.count + runs s.fates ≤ max_exact
        → Calm s t
        → Follows (Quiet (limits g)) (runs s.fates) b t.db
    unfolding reserve_normal_send release_normal_send record_reminder_send check_time_window
        acquire_or_enqueue drop_front
    Calm-Follows {s} b h small reserves =
        script-Follows
          (Scripts.reserve_normal_send r (state_key g.key_prefix bot) (active_key g.key_prefix bot)
            (threshold g) (milliseconds g.time_warning_before))
          (λ c db here room.
            calm_once _ Step.reserves refl
              (reserve_normal_send-Agrees r _ _ _ keys (limits g) db c here (omega arith)).1)
          s b h small
    Calm-Follows {s} b h small releases =
        script-Follows (Scripts.release_normal_send r (state_key g.key_prefix bot))
          (λ c db here room.
            calm_once _ Step.releases refl
              (release_normal_send-Agrees r _ _ _ keys db c here (omega arith)).1)
          s b h small
    Calm-Follows {s} b h small reminds =
        script-Follows (Scripts.record_reminder_send r (state_key g.key_prefix bot) (itoa s.now_ms))
          (λ c db here room.
            let m = record_reminder_send-Represents r _ _ _ keys (itoa s.now_ms) db c here room in
            calm_once _ Step.reminds refl (rw m.1 m.2))
          s b h small
    Calm-Follows {s} b h small checks =
        script-Follows
          (Scripts.check_time_window r (state_key g.key_prefix bot) (active_key g.key_prefix bot)
            (milliseconds g.time_warning_before))
          (λ c db here room.
            calm_once _ Step.checks refl
              (check_time_window-Agrees r _ _ _ keys (limits g) db c here).1)
          s b h small
    Calm-Follows {s} b h small (takes_in text) =
        let payload = codec.marshal text s.now_ms in
        script-Follows
          (Scripts.acquire_or_enqueue r (state_key g.key_prefix bot) (active_key g.key_prefix bot)
            (queue_key g.key_prefix bot) (threshold g) (milliseconds g.time_warning_before) payload
            g.queue_max_len (milliseconds g.queue_ttl))
          (λ c db here room.
            calm_once _ (Step.acquires payload) refl
              (acquire_or_enqueue-Agrees r _ _ _ keys (limits g) payload (milliseconds g.queue_ttl)
                db c alive (omega arith) here).1)
          s b h small
    Calm-Follows {s} b h small drops =
        call-Follows {0} (Quiet (limits g)) (λ c. Quiet.start) (λ x y z p q. Quiet-trans p q)
          (λ db. (ok tt, r.lpop (queue_key g.key_prefix bot) db))
          (λ c db here room. calm_once _ Step.drops refl (pop-Represents r _ _ _ keys db c here)) s
          b h small
    Calm-Follows {s} b h small (elsewhere t fields queue) =
        let (b', way, h', c) = elsewhere-Follows s.db t.db b h fields queue in
        (b', way, h', omega arith)
