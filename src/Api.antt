-- ===== src/Api.antt =====
-- src/api.rs: the web endpoints. A JSON object is a record with the object's keys as fields, and an
-- i32 or i64 is its bit pattern; the calls of kafka_client are arguments, with what they return.
pub mod Topics
pub mod Consumers
pub mod Messages
pub mod Render
pub mod Decode
pub mod Serve
pub mod Callers
pub mod Connections
pub mod Router
pub mod Produce
mod Tests
mod RouterTests
mod CallersTests
use kafka_proxy.Base.{ℕ, ◌+◌, ◌%◌, ◌^◌, Bool, ◌⊎◌, inl, inr, leb, ltb, List, Option}
use kafka_proxy.Text.{Text}

-- The codes that the handlers reply with: 200, 409 and 500.
pub data StatusCode : Type 0 where
  ok conflict internal_server_error : StatusCode

-- A JSON body, or `json_error` of a message.
pub data Reply {ℓ} (A : Type ℓ) : Type ℓ where
  json : StatusCode → A → Reply A
  json_error : StatusCode → Text → Reply A

-- The handlers of /doctor/topics, /doctor/consumers and /doctor/messages.
abbrev pub reply_of {ℓ} : {A : Type ℓ} → Text ⊎ A → Reply A
reply_of (inl e) = json_error internal_server_error e
reply_of (inr v) = json ok v

-- The order of the integers behind bit patterns.
abbrev pub i32_key : ℕ → ℕ
i32_key x = (x + 2 ^ 31) % 2 ^ 32

abbrev pub i64_key : ℕ → ℕ
i64_key x = (x + 2 ^ 63) % 2 ^ 64
