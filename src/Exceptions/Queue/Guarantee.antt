-- ===== src/Exceptions/Queue/Guarantee.antt =====
-- The queue adapter makes a worker's calls only.
use ai_system_engineering_cu.Base.{ℕ, Option, none, some, List, [], ◌∷◌, Text, literal}
use ai_system_engineering_cu.Effects.{Outcome, returned, raised}
use ai_system_engineering_cu.Effects.Guarantee.{Makes-attempt, Makes-bind, makes_rules}
use ai_system_engineering_cu.Domain.Contracts.{ExceptionJob, JobDelivery}
use ai_system_engineering_cu.Exceptions.Calls.{Error, key_error, RedisText, text, bytes, Message}
use ai_system_engineering_cu.Exceptions.Repository.Guarantee.{Permits, Works}
use ai_system_engineering_cu.Exceptions.Queue.{
  publish, acknowledge, queue_depth, pending_count, or_bytes, field, validated_delivery, text_of,
  carried, extract_carrier_from, extract_carrier, delivery_of, first_read, read, first_claimed,
  claim_stale,
}

pub publish-Permits : (job : ExceptionJob) → Permits (publish job)
unfolding publish
publish-Permits job = search makes_rules

pub acknowledge-Works : (id : Text) → Works (acknowledge id)
unfolding acknowledge
acknowledge-Works id = search makes_rules

pub queue_depth-Works : Works queue_depth
unfolding queue_depth
queue_depth-Works = search makes_rules

pub pending_count-Works : Works pending_count
unfolding pending_count
pending_count-Works = search makes_rules

or_bytes-Works :
    (fields : List (RedisText × RedisText)) (name : Text) (found : Option RedisText)
    → Works (or_bytes fields name found)
unfolding or_bytes
or_bytes-Works fields name none = search makes_rules
or_bytes-Works fields name (some value) = search makes_rules

field-Works : (fields : List (RedisText × RedisText)) (name : Text) → Works (field fields name)
unfolding field
field-Works fields name = or_bytes-Works fields name _

validated_delivery-Works : (delivery : JobDelivery) → Works (validated_delivery delivery)
unfolding validated_delivery
validated_delivery-Works delivery = search makes_rules

module _ (decode_utf8 : Text → Option Text) (decode_json : RedisText → Option ExceptionJob) where
  text_of-Works : (value : RedisText) → Works (text_of decode_utf8 decode_json value)
  unfolding text_of
  text_of-Works (text value) = search makes_rules
  text_of-Works (bytes value) = search makes_rules

  carried-Works :
      (key : Text) (value : Outcome Error RedisText) (rest : List (Text × Text))
      → Works (carried decode_utf8 decode_json key value rest)
  unfolding carried
  carried-Works key (returned value) rest = search (makes_rules, text_of-Works)
  carried-Works key (raised key_error) rest = search makes_rules
  carried-Works key (raised _) rest = search makes_rules

  extract_carrier_from-Works :
      (keys : List Text) (fields : List (RedisText × RedisText))
      → Works (extract_carrier_from decode_utf8 decode_json keys fields)
  unfolding extract_carrier_from
  extract_carrier_from-Works [] fields = search makes_rules
  extract_carrier_from-Works (key ∷ keys) fields =
      Makes-bind _ _ (Makes-attempt _ (field-Works fields key)) λ value.
        Makes-bind _ _ (extract_carrier_from-Works keys fields) λ rest. carried-Works key value rest

  extract_carrier-Works :
      (fields : List (RedisText × RedisText))
      → Works (extract_carrier decode_utf8 decode_json fields)
  unfolding extract_carrier
  extract_carrier-Works fields =
      extract_carrier_from-Works (literal "traceparent" ∷ literal "tracestate" ∷ []) fields

  delivery_of-Works :
      (message : Message) (n : ℕ) → Works (delivery_of decode_utf8 decode_json message n)
  unfolding delivery_of
  delivery_of-Works message n =
      search
        (makes_rules, text_of-Works, field-Works, extract_carrier-Works, validated_delivery-Works)
        depth 12

  first_read-Works :
      (result : List (List Message)) → Works (first_read decode_utf8 decode_json result)
  unfolding first_read
  first_read-Works [] = search makes_rules
  first_read-Works ([] ∷ streams) = search makes_rules
  first_read-Works ((message ∷ messages) ∷ streams) = search (makes_rules, delivery_of-Works)

  pub read-Works : (block_ms : ℕ) → Works (read decode_utf8 decode_json block_ms)
  unfolding read
  read-Works block_ms = search (makes_rules, first_read-Works)

  first_claimed-Works :
      (messages : List Message) → Works (first_claimed decode_utf8 decode_json messages)
  unfolding first_claimed
  first_claimed-Works [] = search makes_rules
  first_claimed-Works (message ∷ messages) = search (makes_rules, delivery_of-Works) depth 7

  pub claim_stale-Works : (n : ℕ) → Works (claim_stale decode_utf8 decode_json n)
  unfolding claim_stale
  claim_stale-Works n = search (makes_rules, first_claimed-Works)
