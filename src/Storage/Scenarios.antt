-- ===== src/Storage/Scenarios.antt =====
-- Runs of the storage writers on tables in memory.
use analytics_core.Prelude.{
  if◌then◌else◌, ◌≡◌, refl, Bool, true, false, Option, none, some, List, [], ◌∷◌, Text, txt, lookup,
  insert, text_beq, trim_space, arith,
}
use analytics_core.Contracts.{
  EventEnvelope, Float, finite, nan, string, json_number, boolean, zero_time,
}
use analytics_core.Collect.Request.Accepted.{IsEvent}
use analytics_core.Storage.Property.{EventPropertyRecord, PropertyError, sort_strings}
use analytics_core.Storage.Property.Flattened.{Flattened, NumbersFinite, IsEvent-flattens}
use analytics_core.Storage.PropertyGuard.{property_guard}
use analytics_core.Storage.PropertyIndexing.{EventWriter, IndexWorld, write_indexed_event}
use analytics_core.Storage.PropertyIndexing.Once.{IsOnce, write-IsOnce}
use analytics_core.Storage.Memory.{send-fails}
use analytics_core.Storage.Backends.{Error, Fallible, ok, err, key_beq, key_eq}
use analytics_core.Storage.Memory.{
  Answers, memory_table, memory_warehouse, create_row, first_row, update_row, ask, send,
}
use analytics_core.Storage.IngestionGuard.{
  ingestion_guard, start_event_write, validate_status_envelope, commit, rollback,
  status_key_from_envelope,
}
use analytics_core.Storage.BatchWriter.{WriteResult, World, write_event, write_claimed_event}
use analytics_core.Storage.BatchWriter.Written.{Stored}
use analytics_core.Storage.BatchWriter.Durable.{
  IsDurable, write_event-IsDurable, acknowledged-Stored,
}
use analytics_core.Storage.BatchWriter.Redelivery.{redelivery-skips}

abbrev pub purchase : EventEnvelope
purchase = record {
  id = txt "e1";
  tenant_id = txt "t1";
  project_id = txt "p1";
  source_id = txt "s1";
  source_type = txt "web";
  event_name = txt "purchase";
  distinct_id = txt "u1";
  session_id = [];
  visit_id = [];
  event_time = zero_time;
  received_at = zero_time;
  properties = [];
  user_props = [];
  source = txt "t1:p1:s1";
}

abbrev pub accepts : EventEnvelope → Option Error
accepts envelope = none

abbrev pub Worlds : Type 0
Worlds = World (ingestion_guard memory_table) (memory_warehouse EventEnvelope) true accepts accepts

abbrev pub start_world : Answers → Answers → Worlds
start_world a b = record {
  status = record { answers = a; rows = [] };
  store = record { answers = b; batches = [] };
}

abbrev write : EventEnvelope → Worlds → Fallible WriteResult × Worlds
write =
    write_event (ingestion_guard memory_table) (memory_warehouse EventEnvelope) true accepts accepts

abbrev inserted_result : Bool → Fallible WriteResult
inserted_result b = ok (record { inserted = b })

pub empty-IsDurable :
    IsDurable memory_table (memory_warehouse EventEnvelope) true accepts accepts (start_world [] [])
unfolding lookup
empty-IsDurable k h = absurd cc

write_once : (write purchase (start_world [] [])).0 ≡ inserted_result true
unfolding write_event write_claimed_event start_event_write commit rollback validate_status_envelope
    create_row first_row update_row ask send lookup insert text_beq trim_space key_beq
write_once = refl

-- The append succeeds and the commit does not: the redelivery appends the event a second time.
commit_lost :
    (let lost = (write purchase (start_world (none ∷ some (txt "gone") ∷ []) [])) in
      (lost.0 ≡ err (txt "gone"))
      × ((write purchase lost.1).0 ≡ inserted_result true)
      × ((write purchase lost.1).1.store.batches ≡ purchase ∷ purchase ∷ []))
unfolding write_event write_claimed_event start_event_write commit rollback validate_status_envelope
    create_row first_row update_row ask send lookup insert text_beq trim_space key_beq
commit_lost = (refl, refl, refl)

write_event-IsDurable_example :
    IsDurable memory_table
      (memory_warehouse EventEnvelope)
      true
      accepts
      accepts
      (write purchase (start_world [] [])).1
write_event-IsDurable_example =
    write_event-IsDurable memory_table (memory_warehouse EventEnvelope) true accepts accepts
      purchase (start_world [] []) empty-IsDurable

acknowledged-Stored_example :
    Stored (status_key_from_envelope purchase) (write purchase (start_world [] [])).1.store.batches
acknowledged-Stored_example =
    acknowledged-Stored memory_table (memory_warehouse EventEnvelope) true accepts accepts purchase
      (start_world [] []) (record { inserted = true }) empty-IsDurable write_once

redelivery-skips_example :
    let world' = (write purchase (start_world [] [])).1 in
    ((write purchase world').0 ≡ inserted_result false)
    × ((write purchase world').1.store ≡ world'.store)
unfolding write_event write_claimed_event start_event_write commit rollback validate_status_envelope
    create_row first_row update_row ask send lookup insert text_beq trim_space key_beq
redelivery-skips_example =
    redelivery-skips memory_table (memory_warehouse EventEnvelope) accepts accepts purchase
      (start_world [] []) write_once refl refl

abbrev reads_zero : Text → Option Float
reads_zero s =
    if text_beq s (txt "0")
    then some (finite false 0 0)
    else if text_beq s (txt "NaN")
    then some nan
    else none

abbrev any_number : Text → Bool
any_number s = true

-- A purchase with two properties.
abbrev paid : EventEnvelope
paid = record purchase {
  properties =
      (txt "price", string (txt "9"))
      ∷ (txt "paid", boolean true)
      ∷ (txt "total", json_number (txt "0"))
      ∷ [];
}

paid-IsEvent : IsEvent any_number paid
paid-IsEvent = record {
  id = ground arith;
  tenant_id = ground arith;
  project_id = ground arith;
  source_id = ground arith;
  source_type = ground arith;
  event_name = ground arith;
  distinct_id = ground arith;
  session_id = tt;
  visit_id = tt;
  properties = ground arith;
  user_props = ground arith;
  event_time = omega arith;
}

paid-NumbersFinite : NumbersFinite reads_zero any_number paid.properties
unfolding text_beq
paid-NumbersFinite = (tt, (tt, ((finite false 0 0, refl, tt), tt)))

IsEvent-flattens_example :
    (records : List EventPropertyRecord) × Flattened reads_zero any_number paid records
IsEvent-flattens_example =
    IsEvent-flattens reads_zero any_number paid paid-NumbersFinite tt paid-IsEvent

sorted_names : sort_strings (txt "price" ∷ txt "paid" ∷ []) ≡ txt "paid" ∷ txt "price" ∷ []
unfolding sort_strings
sorted_names = refl

-- A writer that finds every event written before.
abbrev duplicates : EventWriter
duplicates = record { State = Unit; write = λ envelope s. (inserted_result false, s) }

abbrev no_message : PropertyError → Error
no_message e = []

abbrev start_index :
    Answers
    → IndexWorld duplicates
        (property_guard memory_table)
        (memory_warehouse (List EventPropertyRecord))
        reads_zero
        no_message
start_index b = record {
  primary = tt;
  status = record { answers = none ∷ some (txt "gone") ∷ []; rows = [] };
  store = record { answers = b; batches = [] };
}

-- The commit of the row fails.
write-IsOnce_example :
    IsOnce memory_table duplicates
      (memory_warehouse (List EventPropertyRecord))
      reads_zero
      no_message
      (write_indexed_event duplicates
        (property_guard memory_table)
        (memory_warehouse (List EventPropertyRecord))
        reads_zero
        no_message
        paid
        (start_index [])).1
write-IsOnce_example =
    write-IsOnce memory_table duplicates (memory_warehouse (List EventPropertyRecord)) reads_zero
      no_message paid (start_index []) (λ b s e failed. send-fails b s e failed)
      (λ k. (omega arith, λ some_is. absurd (omega (arith, some_is))))
