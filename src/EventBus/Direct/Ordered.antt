-- ===== src/EventBus/Direct/Ordered.antt =====
-- eventbus/direct/direct.go: the order in which the handlers of a message are called.
use analytics_core.Prelude.{
  ◌≡◌, refl, sym, ap, ◌∙◌, inl, inr, Option, none, some, List, [], ◌∷◌, ◌++◌, add64, Option-cases,
}
use analytics_core.Contracts.{EventEnvelope}
use analytics_core.Storage.Backends.{Error}
use analytics_core.EventBus.{Message}
use analytics_core.EventBus.Direct.{
  DirectBus, Handler, subscribe_direct, deliver, direct_message, publish_direct,
}

module _ (W : Type 0) where
  -- The handlers are called in turn on the states that they leave, up to the first error.
  pub data Delivered (m : Message) : List (Handler W) → W → Option Error → W → Type 0 where
    all_called : (w : W) → Delivered m [] w none w
    called :
        (handler : Handler W) (handlers : List (Handler W)) (w w1 w2 : W) (answer : Option Error)
        → handler m w ≡ (none, w1)
        → Delivered m handlers w1 answer w2
        → Delivered m (handler ∷ handlers) w answer w2
    stopped :
        (handler : Handler W) (handlers : List (Handler W)) (w w1 : W) (e : Error)
        → handler m w ≡ (some e, w1)
        → Delivered m (handler ∷ handlers) w (some e) w1

  deliver-Delivered :
      (m : Message) (handlers : List (Handler W)) (w : W)
      → Delivered m handlers w (deliver W m handlers w).0 (deliver W m handlers w).1
  unfolding deliver
  deliver-Delivered m [] w = all_called w
  deliver-Delivered m (handler ∷ handlers) w = elim (Option-cases (handler m w).0) [
    | inr (e, failed) ↦
        rw (failed, deliver)
          (stopped handler handlers w (handler m w).1 e (ap (λ a. (a, (handler m w).1)) failed))
    | inl done ↦
        rw (done, deliver)
          (called handler handlers w (handler m w).1 _ _ (ap (λ a. (a, (handler m w).1)) done)
            (deliver-Delivered m handlers (handler m w).1))
  ]

  -- The bus behind these subscriptions, the first one first.
  abbrev pub subscribed : List (Handler W) → DirectBus W → DirectBus W
  subscribed [] bus = bus
  subscribed (handler ∷ handlers) bus = subscribed handlers (subscribe_direct W handler bus)

  ++-assoc :
      {A : Type 0} (xs : List A) (x : A) (ys : List A) → (xs ++ (x ∷ [])) ++ ys ≡ xs ++ (x ∷ ys)
  ++-assoc [] x ys = refl
  ++-assoc (a ∷ xs) x ys = ap (λ l. a ∷ l) (++-assoc xs x ys)

  subscribed-handlers :
      (handlers : List (Handler W)) (bus : DirectBus W)
      → (subscribed handlers bus).handlers ≡ bus.handlers ++ handlers
  subscribed-handlers [] bus = sym (append_nil bus.handlers)
    where
      append_nil : {A : Type 0} (xs : List A) → xs ++ [] ≡ xs
      append_nil [] = refl
      append_nil (x ∷ xs) = ap (λ l. x ∷ l) (append_nil xs)
  subscribed-handlers (handler ∷ handlers) bus =
      subscribed-handlers handlers (subscribe_direct W handler bus)
      ∙ ++-assoc bus.handlers handler handlers

  subscribed-sequence :
      (handlers : List (Handler W)) (bus : DirectBus W)
      → (subscribed handlers bus).sequence ≡ bus.sequence
  subscribed-sequence [] bus = refl
  subscribed-sequence (handler ∷ handlers) bus =
      subscribed-sequence handlers (subscribe_direct W handler bus)

  -- An envelope that is published on a bus behind further subscriptions is given, under the next
  -- number, to the handlers in the order of the subscriptions, each on the state that the one
  -- before it leaves, up to the first error, which is the answer; without one the answer is nil
  -- and every handler has been called.
  pub publish-Delivered :
      (handlers : List (Handler W)) (envelope : EventEnvelope) (bus : DirectBus W) (w : W)
      → Delivered
          (direct_message W (add64 bus.sequence 1) envelope)
          (bus.handlers ++ handlers)
          w
          (publish_direct W envelope (subscribed handlers bus) w).0
          (publish_direct W envelope (subscribed handlers bus) w).2
  unfolding publish_direct
  publish-Delivered handlers envelope bus w =
      let m = direct_message W (add64 bus.sequence 1) envelope in
      rw (subscribed-handlers handlers bus, subscribed-sequence handlers bus, publish_direct)
        (deliver-Delivered m (bus.handlers ++ handlers) w)
