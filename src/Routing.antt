-- ===== src/Routing.antt =====
-- The tables of routes: `router` of actual/src/router.rs and of development/src/main.rs.
pub mod Apart
use esp32_music_server.Prelude.{Bool, true, false, ◌&&◌, List, [], ◌∷◌, Bytes, codes, if◌then◌else◌}

pub data Method : Type 0 where
  get post delete : Method

-- A part of a path: a text as it is, `parse_path_segment`, which takes any one part, and `CatchAll`,
-- which takes all that is left.
pub data Segment : Type 0 where
  literal : Bytes → Segment
  segment remainder : Segment

-- The handlers that the tables name: those of the device, and those of the crate server.
pub data Handler : Type 0 where
  home config set_config write_to_flash status get_flash_data print_alloc : Handler
  handle_delete handle_list handle_range_request upload_new upload_chunk upload_end : Handler
  handle_delete_db handle_fs handle_fs_music_delete : Handler

pub record Route : Type 0 where
  pub path : List Segment
  pub method : Method
  pub handler : Handler

abbrev route : List Segment → Method → Handler → Route
route path method handler = record { path = path; method = method; handler = handler }

abbrev pub device_routes : List Route
device_routes =
    route [] get home
    ∷ route (literal (codes "config") ∷ []) get config
    ∷ route (literal (codes "set-config") ∷ []) post set_config
    ∷ route (literal (codes "write-to-flash") ∷ []) post write_to_flash
    ∷ route (literal (codes "status") ∷ []) get status
    ∷ route (literal (codes "get-flash-data") ∷ []) get get_flash_data
    ∷ route (literal (codes "print-alloc") ∷ []) get print_alloc
    ∷ route (literal (codes "delete") ∷ segment ∷ segment ∷ []) delete handle_delete
    ∷ route (literal (codes "list") ∷ segment ∷ []) get handle_list
    ∷ route (literal (codes "stream") ∷ segment ∷ segment ∷ []) get handle_range_request
    ∷ route (literal (codes "upload-new") ∷ segment ∷ []) post upload_new
    ∷ route (literal (codes "upload-chunk") ∷ segment ∷ []) post upload_chunk
    ∷ route (literal (codes "upload-end") ∷ segment ∷ []) post upload_end
    ∷ route (literal (codes "db") ∷ []) delete handle_delete_db
    ∷ route (literal (codes "fs") ∷ remainder ∷ []) get handle_fs
    ∷ route (literal (codes "fs-music-delete") ∷ segment ∷ []) delete handle_fs_music_delete
    ∷ []

abbrev pub development_routes : List Route
development_routes =
    route [] get home
    ∷ route (literal (codes "delete") ∷ segment ∷ segment ∷ []) delete handle_delete
    ∷ route (literal (codes "list") ∷ segment ∷ []) get handle_list
    ∷ route (literal (codes "stream") ∷ segment ∷ segment ∷ []) get handle_range_request
    ∷ route (literal (codes "upload-new") ∷ segment ∷ []) post upload_new
    ∷ route (literal (codes "upload-chunk") ∷ segment ∷ []) post upload_chunk
    ∷ route (literal (codes "upload-end") ∷ segment ∷ []) post upload_end
    ∷ route (literal (codes "db") ∷ []) delete handle_delete_db
    ∷ route (literal (codes "fs") ∷ remainder ∷ []) get handle_fs
    ∷ []

-- The interface of picoserve's router, which is not part of the repository: does a path match the
-- path of a route?
pub record PathMatch (P : Type 0) : Type 0 where
  pub matches : List Segment → P → Bool

-- The handlers whose route matches, in the order of the table, whatever their method.
unfoldable pub handlers_of : {P : Type 0} → PathMatch P → List Route → P → List Handler
handlers_of m [] path = []
handlers_of m (r ∷ routes) path =
    let rest = handlers_of m routes path in if m.matches r.path path then r.handler ∷ rest else rest
