-- ===== src/Proto/Management.antt =====
-- Messages of the management service: proto/gen/ts/management/v1. A bigint count is a ℕ.
-- `Timestamp` is the well-known protobuf type.
use byom.Prelude.{ℕ, Text, Option}

pub record Timestamp : Type 0 where
  pub seconds : ℕ
  pub nanos : ℕ

pub record Location : Type 0 where
  pub id : Text
  pub path : Text

pub data ScanState : Type 0 where
  unspecified running cancelling done failed aborted : ScanState

pub record Progress : Type 0 where
  pub dirs_seen : ℕ
  pub dirs_missing : ℕ
  pub files_seen : ℕ
  pub files_missing : ℕ

pub record Scan : Type 0 where
  pub id : Text
  pub location_id : Text
  pub state : ScanState
  pub start_time : Option Timestamp
  pub finish_time : Option Timestamp
  pub error : Text
  pub progress : Option Progress
