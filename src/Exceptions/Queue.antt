-- ===== src/Exceptions/Queue.antt =====
-- src/adapters/queue/redis_streams.py: `RedisJobQueue`. JSON is pydantic's, and UTF-8 decoding
-- Python's: `decode_json` and `decode_utf8` are parameters, `none` where they raise.
pub mod Guarantee
use ai_system_engineering_cu.Base.{
  ℕ, Option, none, some, List, [], ◌∷◌, Text, literal, ◌==◌, text_eq, if◌then◌else◌, leb,
}
use ai_system_engineering_cu.Effects.{
  pure, raise, call, Outcome, returned, raised, ◌>>=◌, attempt, reply_or, or_raise,
}
use ai_system_engineering_cu.Domain.Contracts.{ExceptionJob, JobDelivery}
use ai_system_engineering_cu.Exceptions.Calls.{
  Action, Error, driver, key_error, index_error, validation_error, RedisText, text, bytes, Message,
  xadd, xack, xautoclaim, xpending_range, xreadgroup, xlen, xpending,
}

unfoldable pub publish : ExceptionJob → Action Text
publish job = call (xadd job) (reply_or driver)

unfoldable pub acknowledge : Text → Action Unit
acknowledge message_id = call (xack message_id) (reply_or driver)

unfoldable pub queue_depth : Action ℕ
queue_depth = call xlen (reply_or driver)

unfoldable pub pending_count : Action ℕ
pending_count = call xpending (reply_or driver)

-- `fields[name]` for a key that is text, then for the same key as bytes (ASCII in this file).
find_text : Text → List (RedisText × RedisText) → Option RedisText
find_text name [] = none
find_text name ((text key, value) ∷ rest) = if key == name then some value else find_text name rest
find_text name ((bytes key, value) ∷ rest) = find_text name rest

find_bytes : Text → List (RedisText × RedisText) → Option RedisText
find_bytes name [] = none
find_bytes name ((text key, value) ∷ rest) = find_bytes name rest
find_bytes name ((bytes key, value) ∷ rest) =
    if key == name then some value else find_bytes name rest

or_bytes : List (RedisText × RedisText) → Text → Option RedisText → Action RedisText
unfolding find_bytes
or_bytes fields name (some value) = pure value
or_bytes fields name none = or_raise key_error (find_bytes name fields)

unfoldable pub field : List (RedisText × RedisText) → Text → Action RedisText
unfolding find_text or_bytes
field fields name = or_bytes fields name (find_text name fields)

-- `JobDelivery.delivery_count` is at least 1.
unfoldable pub validated_delivery : JobDelivery → Action JobDelivery
validated_delivery delivery =
    if leb 1 delivery.delivery_count then pure delivery else raise validation_error

module _ (decode_utf8 : Text → Option Text) (decode_json : RedisText → Option ExceptionJob) where
  -- `_text`
  unfoldable pub text_of : RedisText → Action Text
  text_of (text value) = pure value
  text_of (bytes value) = or_raise validation_error (decode_utf8 value)

  unfoldable pub decode_job : RedisText → Action ExceptionJob
  decode_job payload = or_raise validation_error (decode_json payload)

  -- One turn of the loop of `_extract_carrier`: a `KeyError` skips the key.
  carried : Text → Outcome Error RedisText → List (Text × Text) → Action (List (Text × Text))
  unfolding text_of
  carried key (returned value) rest = do decoded ← text_of value; pure ((key, decoded) ∷ rest)
  carried key (raised key_error) rest = pure rest
  carried key (raised error) rest = raise error

  extract_carrier_from : List Text → List (RedisText × RedisText) → Action (List (Text × Text))
  unfolding field carried
  extract_carrier_from [] fields = pure []
  extract_carrier_from (key ∷ keys) fields = do
    value ← attempt (field fields key)
    rest ← extract_carrier_from keys fields
    carried key value rest

  unfoldable pub extract_carrier : List (RedisText × RedisText) → Action (List (Text × Text))
  unfolding extract_carrier_from
  extract_carrier = extract_carrier_from (literal "traceparent" ∷ literal "tracestate" ∷ [])

  -- The `JobDelivery` of a message.
  unfoldable pub delivery_of : Message → ℕ → Action JobDelivery
  unfolding text_of decode_job field extract_carrier validated_delivery
  delivery_of message delivery_count = do
    message_id ← text_of message.message_id
    payload ← field message.fields (literal "job")
    job ← decode_job payload
    trace_carrier ← extract_carrier message.fields
    validated_delivery (record {
      message_id = message_id;
      job = job;
      delivery_count = delivery_count;
      trace_carrier = trace_carrier;
    })

  first_read : List (List Message) → Action (Option JobDelivery)
  unfolding delivery_of
  first_read [] = pure none
  first_read ([] ∷ streams) = raise index_error
  first_read ((message ∷ messages) ∷ streams) = do
    delivery ← delivery_of message 1
    pure (some delivery)

  unfoldable pub read : ℕ → Action (Option JobDelivery)
  unfolding first_read
  read block_ms = do result ← call (xreadgroup block_ms) (reply_or driver); first_read result

  -- `int(pending[0]["times_delivered"]) if pending else 1`
  times_delivered : List ℕ → ℕ
  times_delivered [] = 1
  times_delivered (n ∷ rest) = n

  first_claimed : List Message → Action (Option JobDelivery)
  unfolding delivery_of times_delivered
  first_claimed [] = pure none
  first_claimed (message ∷ messages) = do
    pending ← call (xpending_range message.message_id) (reply_or driver)
    delivery ← delivery_of message (times_delivered pending)
    pure (some delivery)

  unfoldable pub claim_stale : ℕ → Action (Option JobDelivery)
  unfolding first_claimed
  claim_stale minimum_idle_ms = do
    messages ← call (xautoclaim minimum_idle_ms) (reply_or driver)
    first_claimed messages
