-- ===== src/Proto/ManagementService.antt =====
-- Requests and responses of the management service: proto/gen/ts/management/v1/management_pb.ts.
use byom.Prelude.{ℕ, Text, Bool, List, Option}
use byom.Proto.Management.{Location, Scan, ScanState}

pub record CreateLocationRequest : Type 0 where
  pub location : Option Location

pub record CreateLocationResponse : Type 0 where
  pub location : Option Location

pub record ListLocationsRequest : Type 0 where
  pub page_size : ℕ
  pub page_token : Text

pub record ListLocationsResponse : Type 0 where
  pub items : List Location
  pub next_page_token : Text

pub record GetLocationRequest : Type 0 where
  pub id : Text

pub record GetLocationResponse : Type 0 where
  pub location : Option Location

pub record UpdateLocationRequest : Type 0 where
  pub location : Option Location

pub record UpdateLocationResponse : Type 0 where
  pub location : Option Location

pub record DeleteLocationRequest : Type 0 where
  pub id : Text

pub record DeleteLocationResponse : Type 0 where

pub record ScanLocationRequest : Type 0 where
  pub location_id : Text
  pub force : Bool

pub record ScanLocationResponse : Type 0 where
  pub scan : Option Scan

pub record ListScansRequest : Type 0 where
  pub page_size : ℕ
  pub page_token : Text
  pub location_id : Text
  pub state : ScanState

pub record ListScansResponse : Type 0 where
  pub items : List Scan
  pub next_page_token : Text

pub record GetScanRequest : Type 0 where
  pub id : Text

pub record GetScanResponse : Type 0 where
  pub scan : Option Scan

pub record CancelScanRequest : Type 0 where
  pub id : Text

pub record CancelScanResponse : Type 0 where

-- What the server answers to each request, when it answers.
pub record ManagementService : Type 0 where
  pub create_location : CreateLocationRequest → CreateLocationResponse
  pub list_locations : ListLocationsRequest → ListLocationsResponse
  pub get_location : GetLocationRequest → GetLocationResponse
  pub update_location : UpdateLocationRequest → UpdateLocationResponse
  pub delete_location : DeleteLocationRequest → DeleteLocationResponse
  pub scan_location : ScanLocationRequest → ScanLocationResponse
  pub list_scans : ListScansRequest → ListScansResponse
  pub get_scan : GetScanRequest → GetScanResponse
  pub cancel_scan : CancelScanRequest → CancelScanResponse
