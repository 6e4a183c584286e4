-- ===== src/EventBus/RedisStream/Kept.antt =====
-- eventbus/redisstream/redisstream.go: what a subscription keeps if its loop does.
use analytics_core.Prelude.{
  ℕ, Bool, true, false, not, Option, none, some, Text, is_empty, if◌then◌else◌,
}
use analytics_core.Contracts.{EventEnvelope}
use analytics_core.Storage.Backends.{Error, Fallible}
use analytics_core.EventBus.{ConsumerGroup, Message}
use analytics_core.EventBus.Redis.{Options, Redis}
use analytics_core.EventBus.RedisStream.{
  World, Ending, ends, rounds, subscribe_redis, is_busy_group,
}

module _ (r : Redis) (H : Type 0) (handler : Message → H → Option Error × H)
    (unmarshal : Text → Fallible EventEnvelope) (opts : Options) (group : ConsumerGroup) where
  abbrev Worlds : Type 0
  Worlds = World r H handler unmarshal opts group

  either :
      (P : Worlds → Type 0) (test : Bool) (a b : Ending × Worlds)
      → P a.1
      → P b.1
      → P (if test then a else b).1
  either P true a b p q = p
  either P false a b p q = q

  -- What holds of the states that a subscription starts from holds of the state that it leaves, if
  -- the rounds keep it.
  pub subscribe-keeps :
      (P : Worlds → Type 0)
      → ((fuel : ℕ) (w : Worlds) → P w → P (rounds r H handler unmarshal opts group fuel w).1)
      → ((s : r.State) (w : Worlds) → P w → P (record w { server = s }))
      → (fuel : ℕ) (w : Worlds) → P w
      → P (subscribe_redis r H handler unmarshal opts group fuel w).1
  unfolding subscribe_redis
  subscribe-keeps P keeps at_server fuel w p =
      let (e, s) = r.create_group opts.stream group.name w.server in
      let w0 = record w { server = s } in
      let p0 = at_server s w p in
      either P (is_empty group.name) _ _ p (
        either P (is_empty group.consumer) _ _ p (
          either P (not opts.ensure_consumer) _ _ (keeps fuel w p)
            (elim e
              as (λ e.
                P
                  (elim e as (λ x. Ending × Worlds) [
                    | none ↦ rounds r H handler unmarshal opts group fuel w0
                    | some e ↦
                        if is_busy_group e
                        then rounds r H handler unmarshal opts group fuel w0
                        else (ends e, w0)
                  ]).1) [
                    | none ↦ keeps fuel w0 p0
                    | some e ↦
                        either P (is_busy_group e) (rounds r H handler unmarshal opts group fuel w0)
                          (ends e, w0) (keeps fuel w0 p0) p0
                  ])))
