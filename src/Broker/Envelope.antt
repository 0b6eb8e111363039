-- ===== src/Broker/Envelope.antt =====
-- broker/envelope.go and `Validate` of broker/broker.go: the event envelope, and what a sink needs
-- of it. `Value` stands for Go's `any`, the type of an attribute's value.
use go_platform_kit.Common.{ℕ, Option, none, some, List, Text, is_empty, if◌then◌else◌, is_none}

-- A named string type of Go.
abbrev pub Category : Type 0
Category = Text

abbrev pub Operation : Type 0
Operation = Text

abbrev pub Outcome : Type 0
Outcome = Text

pub record Actor : Type 0 where
  pub id : Text
  pub actor_type : Text
  pub assurance : Text

pub record Resource : Type 0 where
  pub resource_type : Text
  pub id : Text

-- `occurred_at` is `none` for Go's zero time.
pub record Envelope (Value : Type 0) : Type 0 where
  pub event_id : Text
  pub occurred_at : Option ℕ
  pub correlation_id : Text
  pub trace_id : Text
  pub categories : List Category
  pub event_type : Text
  pub actor : Option Actor
  pub data_subjects : List Text
  pub resource : Option Resource
  pub operation : Operation
  pub lawful_basis : Text
  pub purpose : Text
  pub outcome : Outcome
  pub ip : Text
  pub device : Text
  pub prev_hash : Text
  pub hash : Text
  pub attributes : List (Text × Value)

-- The errors of the package that carry no other error.
pub data BrokerError : Type 0 where
  no_transport nil_envelope nil_handler : BrokerError
  missing_event_id missing_occurred_at missing_event_type missing_category missing_outcome :
      BrokerError

-- `(*Envelope).Validate`; `none` is a nil error.
unfoldable pub validate : {Value : Type 0} → Envelope Value → Option BrokerError
validate ev =
    if is_empty ev.event_id
    then some BrokerError.missing_event_id
    else if is_none ev.occurred_at
    then some BrokerError.missing_occurred_at
    else if is_empty ev.event_type
    then some BrokerError.missing_event_type
    else if is_empty ev.categories
    then some BrokerError.missing_category
    else if is_empty ev.outcome
    then some BrokerError.missing_outcome
    else none
