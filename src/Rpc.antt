-- ===== src/Rpc.antt =====
-- The calls that the UI makes of the two services: ui/src/lib/rpc/library.ts,
-- ui/src/lib/rpc/management.ts and the clients of ui/src/lib/rpc/client.ts. Each function is what
-- the call asks and, with a service as parameter, what its promise is fulfilled with; the
-- router's `query` caches the answers under the key by the arguments.
use byom.Prelude.{Text, Bool, false, [], Option, none, some}
use byom.Proto.Management.{ScanState}
use byom.Proto.LibraryService.{
  LibraryService, GetAlbumResponse, GetArtistResponse, ListAlbumVersionsResponse,
  ListTracksResponse,
}
use byom.Proto.ManagementService.{
  ManagementService, ListLocationsResponse, ListScansResponse, ScanLocationResponse,
  CancelScanResponse, CreateLocationResponse, DeleteLocationResponse,
}

-- `rpc`: the two clients.
pub record Rpc : Type 0 where
  pub library : LibraryService
  pub management : ManagementService

module _ (service : LibraryService) where
  unfoldable pub get_album : Text → GetAlbumResponse
  get_album id = service.get_album (record { id = id })

  unfoldable pub get_artist : Text → GetArtistResponse
  get_artist id = service.get_artist (record { id = id })

  unfoldable pub list_album_versions : Text → ListAlbumVersionsResponse
  list_album_versions album_id = service.list_album_versions (record { album_id = album_id })

  unfoldable pub list_tracks : Text → ListTracksResponse
  list_tracks album_id =
      service.list_tracks (record { page_size = 500; page_token = []; album_id = album_id })

module _ (service : ManagementService) where
  unfoldable pub list_locations : ListLocationsResponse
  list_locations = service.list_locations (record { page_size = 100; page_token = [] })

  unfoldable pub list_running_scans : ListScansResponse
  list_running_scans =
      service.list_scans
        (record { page_size = 50; page_token = []; location_id = []; state = ScanState.running })

  unfoldable pub list_scans_for : Text → ListScansResponse
  list_scans_for location_id = service.list_scans (record {
    page_size = 20;
    page_token = [];
    location_id = location_id;
    state = ScanState.unspecified;
  })

  -- `force?: boolean` defaults to false.
  unfoldable pub scan_location : Text → Option Bool → ScanLocationResponse
  scan_location location_id force =
      service.scan_location
        (record { location_id = location_id; force = elim force [ some b ↦ b | none ↦ false ] })

  unfoldable pub cancel_scan : Text → CancelScanResponse
  cancel_scan id = service.cancel_scan (record { id = id })

  unfoldable pub create_location : Text → CreateLocationResponse
  create_location path =
      service.create_location (record { location = some (record { id = []; path = path }) })

  unfoldable pub delete_location : Text → DeleteLocationResponse
  delete_location id = service.delete_location (record { id = id })
