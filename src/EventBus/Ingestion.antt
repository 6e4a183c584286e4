-- ===== src/EventBus/Ingestion.antt =====
-- ingestion/processor.go: the handler that writes the events of a bus to the store.
pub mod Delivered
use analytics_core.Prelude.{Option, none, some, Text, txt, is_empty, if◌then◌else◌}
use analytics_core.Contracts.{EventEnvelope}
use analytics_core.Storage.Backends.{Error, Fallible, ok, err}
use analytics_core.EventBus.{ConsumerGroup, Message}

-- The group of a processor; a bus and a store that are nil are left out.
unfoldable pub new_processor : ConsumerGroup → Fallible ConsumerGroup
new_processor group =
    if is_empty group.name
    then err (txt "consumer group name is required")
    else if is_empty group.consumer
    then err (txt "consumer name is required")
    else ok group

abbrev pub error_of {ℓ} : {A : Type ℓ} → Fallible A → Option Error
error_of (ok a) = none
error_of (err e) = some e

unfoldable pub handle_message :
    {S R : Type 0} → (EventEnvelope → S → Fallible R × S) → Message → S → Option Error × S
handle_message write message s = let (r, s') = write message.envelope s in (error_of r, s')
