-- ===== src/Http/Filter.antt =====
-- src/adapters/http/domain-error.filter.ts and analytics-failure.filter.ts: what a caller is told.
-- The wording of a message is left out: a message is told by the error that it describes.
use cubeforge_api.Prelude.{ℕ, Option, none, some, Text, lit}
use cubeforge_api.Errors.{
  DomainError, AnalyticsFailureReason, Failure, validation, violation, invalid_role,
  analytics_unavailable, tenant_name_taken, already_a_member, last_administrator, not_found,
  forbidden, unanswerable,
}

pub data Message : Type 0 where
  describes : DomainError → Message
  no_such_record : Message

-- `MappedResponse`
pub record MappedResponse : Type 0 where
  pub status : ℕ
  pub message : Message
  pub field : Option Text

-- `NOT_FOUND`
abbrev pub not_found_response : MappedResponse
not_found_response = record { status = 404; message = no_such_record; field = none }

abbrev conflict : DomainError → Option Text → MappedResponse
conflict error field = record { status = 409; message = describes error; field = field }

-- `map`
unfoldable pub mapped : DomainError → MappedResponse
mapped (validation field) = record {
  status = 400;
  message = describes (validation field);
  field = some field;
}
mapped (invalid_role permitted) = record {
  status = 400;
  message = describes (invalid_role permitted);
  field = some (lit "role");
}
mapped tenant_name_taken = conflict tenant_name_taken (some (lit "name"))
mapped already_a_member = conflict already_a_member (some (lit "email"))
mapped last_administrator = conflict last_administrator none
mapped not_found = not_found_response
mapped forbidden = not_found_response
mapped unanswerable = record { status = 422; message = describes unanswerable; field = none }

-- What is sent: by the one filter, by the other, or by the framework.
pub data Reply : Type 0 where
  refused : MappedResponse → Reply
  unavailable : (status : ℕ) → AnalyticsFailureReason → Reply
  by_framework : Reply

-- `DomainErrorFilter.catch` and `AnalyticsFailureFilter.catch`
unfoldable pub reply_to : Failure → Reply
unfolding mapped
reply_to (violation error) = refused (mapped error)
reply_to (analytics_unavailable reason) = unavailable 503 reason
reply_to _ = by_framework
