-- ===== src/Response.antt =====
-- internal/response/response.go: what the handlers answer.
pub mod Range
mod Tests
use rest_trans.Prelude.{
  ℕ, Bool, true, false, ◌||◌, Option, none, some, List, [], ◌∷◌, ◌++◌, Text, codes, text_eq,
  is_empty, contains, if◌then◌else◌,
}
use rest_trans.Prelude.Int.{ℤ, itoa}
use rest_trans.ApiErrors.{ApiError, err_database}
use rest_trans.Schema.{store, Column, ForeignKey}
use rest_trans.Transaction.Types.{Value, null, string, Row}

-- What HandleOptions tells of a table.
pub record TableInfo : Type 0 where
  pub table_name : Text
  pub schema : Text
  pub is_view : Bool
  pub primary_key : Text
  pub columns : List Column
  pub foreign_keys : List ForeignKey

-- A body. `json_null` is what a nil slice becomes; `csv` holds the records that are written.
pub data Content : Type 0 where
  nothing json_null : Content
  error : ApiError → Content
  message : Text → Content
  json_rows : List Row → Content
  json_object : Row → Content
  csv : List (List Text) → Content
  table_info : TableInfo → Content

abbrev pub Headers : Type 0
Headers = List (Text × Text)

pub record Reply : Type 0 where
  pub status : ℕ
  pub headers : Headers
  pub content : Content

unfoldable pub remove : Text → Headers → Headers
unfolding text_eq
remove k [] = []
remove k ((j, v) ∷ m) = let rest = remove k m in if text_eq j k then rest else (j, v) ∷ rest

-- gin's `c.Header`: an empty value takes the header away.
unfoldable pub set_header : Text → Text → Headers → Headers
unfolding remove store
set_header k v hs = if is_empty v then remove k hs else store k v hs

-- `c.JSON(e.Status, e)`, and `c.Status`.
abbrev pub reply_error : Headers → ApiError → Reply
reply_error hs e = record { status = e.status; headers = hs; content = error e }

abbrev pub reply_status : Headers → ℕ → Reply
reply_status hs status = record { status = status; headers = hs; content = nothing }

-- `containsPrefer`, and `hasPrefer` of internal/api/handler.go.
unfoldable pub contains_prefer : List Text → Text → Bool
unfolding contains
contains_prefer [] value = false
contains_prefer (p ∷ prefer) value = contains value p || contains_prefer prefer value

-- The three answers to a write: a message where the client asks for it.
unfoldable pub write_done : Headers → ℤ → List Text → Text → ℕ → ℕ → Reply
unfolding contains_prefer set_header itoa
write_done hs count prefer verb told silent =
    if contains_prefer prefer (codes "return=representation")
    then record {
      status = told;
      headers = set_header (codes "Content-Type") (codes "application/json") hs;
      content = message (itoa count ++ (codes " row(s) " ++ verb));
    }
    else reply_status hs silent

unfoldable pub write_inserted : Headers → ℤ → List Text → Reply
unfolding write_done
write_inserted hs count prefer = write_done hs count prefer (codes "inserted") 201 201

unfoldable pub write_updated : Headers → ℤ → List Text → Reply
unfolding write_done
write_updated hs count prefer = write_done hs count prefer (codes "updated") 200 204

unfoldable pub write_deleted : Headers → ℤ → List Text → Reply
unfolding write_done
write_deleted hs count prefer = write_done hs count prefer (codes "deleted") 200 204

-- A value as the driver scans it: NULL, bytes with what `json.Unmarshal` makes of them, or another
-- value with what `%v` prints of it.
pub data Cell : Type 0 where
  sql_null : Cell
  bytes : Text → Option Value → Cell
  plain : Value → Text → Cell

-- A row of a result, or the text of the error of Scan.
pub data Scanned : Type 0 where
  scan_error : Text → Scanned
  cells : List Cell → Scanned

-- `toInterface` of internal/api/handler.go, which WriteJSON writes out.
abbrev pub to_interface : Cell → Value
to_interface sql_null = null
to_interface (bytes b none) = string b
to_interface (bytes b (some v)) = v
to_interface (plain v printed) = v

-- The map of a row. The driver gives a cell for each column.
unfoldable pub row_of : List Text → List Cell → Row → Row
unfolding store
row_of (col ∷ cols) (v ∷ vals) row = row_of cols vals (store col (to_interface v) row)
row_of _ _ row = row

abbrev scan_failed : Headers → Text → Reply
scan_failed hs detail = record {
  status = 500;
  headers = hs;
  content = error (record {
    code = codes "PGRST100";
    message = codes "Failed to scan row";
    details = detail;
    hint = [];
    status = 500;
  });
}

abbrev page : List Row → Content
page [] = json_null
page (r ∷ rows) = json_rows (r ∷ rows)

-- The loop of WriteJSON.
unfoldable pub write_rows : Headers → List Text → List Scanned → List Row → Reply
unfolding row_of
write_rows hs cols [] results = record { status = 200; headers = hs; content = page results }
write_rows hs cols (scan_error e ∷ rows) results = scan_failed hs e
write_rows hs cols (cells vals ∷ rows) results =
    write_rows hs cols rows (results ++ row_of cols vals [] ∷ [])

-- `WriteJSON`. `profile` is `c.GetString("schema")`.
unfoldable pub write_json : Headers → Text → List Text → List Scanned → Reply
unfolding write_rows set_header
write_json hs profile cols rows =
    let hs' = set_header (codes "Content-Type") (codes "application/json") hs in
    write_rows (set_header (codes "Content-Profile") profile hs') cols rows []

-- `WriteSingularJSON`.
unfoldable pub write_singular_json : Headers → Row → Reply
unfolding set_header
write_singular_json hs row = record {
  status = 200;
  headers = set_header (codes "Content-Type") (codes "application/vnd.pgrst.object+json") hs;
  content = json_object row;
}

-- `Handler.writeSingular`: the first row.
unfoldable pub write_singular : Headers → List Text → List Scanned → Reply
unfolding write_singular_json row_of
write_singular hs cols [] = reply_status hs 404
write_singular hs cols (scan_error e ∷ rows) = reply_error hs (err_database e)
write_singular hs cols (cells vals ∷ rows) = write_singular_json hs (row_of cols vals [])

abbrev csv_field : Cell → Text
csv_field sql_null = []
csv_field (bytes b decoded) = b
csv_field (plain v printed) = printed

unfoldable pub csv_fields : List Cell → List Text
csv_fields [] = []
csv_fields (v ∷ vals) = csv_field v ∷ csv_fields vals

-- The rows before the first that cannot be scanned.
unfoldable pub csv_records : List Scanned → List (List Text)
unfolding csv_fields
csv_records [] = []
csv_records (scan_error e ∷ rows) = []
csv_records (cells vals ∷ rows) = csv_fields vals ∷ csv_records rows

-- `WriteCSV`. `table` is the parameter of the route.
unfoldable pub write_csv : Headers → Text → List Text → List Scanned → Reply
unfolding csv_records set_header
write_csv hs table cols rows =
    let hs' = set_header (codes "Content-Type") (codes "text/csv") hs in
    record {
      status = 200;
      headers =
          set_header (codes "Content-Disposition")
            (codes "attachment; filename=" ++ (table ++ codes ".csv")) hs';
      content = csv (cols ∷ csv_records rows);
    }
