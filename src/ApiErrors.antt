-- ===== src/ApiErrors.antt =====
-- internal/error/error.go: the errors that are answered as JSON, each with its HTTP status.
use rest_trans.Prelude.{ℕ, [], ◌++◌, Text, codes}

-- An empty `details` or `hint` is left out of the JSON.
pub record ApiError : Type 0 where
  pub code : Text
  pub message : Text
  pub details : Text
  pub hint : Text
  pub status : ℕ

-- `Error.Error`.
abbrev pub error_text : ApiError → Text
error_text e = codes "[" ++ (e.code ++ (codes "] " ++ e.message))

abbrev pub err_invalid_filter : Text → ApiError
err_invalid_filter detail = record {
  code = codes "PGRST100";
  message = codes "Invalid filter syntax";
  details = detail;
  hint = [];
  status = 400;
}

abbrev pub err_invalid_column : Text → ApiError
err_invalid_column col = record {
  code = codes "PGRST204";
  message = codes "Column '" ++ (col ++ codes "' not found in the table");
  details = [];
  hint = [];
  status = 400;
}

abbrev pub err_invalid_operator : Text → ApiError
err_invalid_operator op = record {
  code = codes "PGRST106";
  message = codes "Invalid operator '" ++ (op ++ codes "'");
  details =
      codes "Supported operators: eq, neq, gt, gte, lt, lte, like, ilike, in, is, match, imatch";
  hint = [];
  status = 400;
}

abbrev pub err_table_not_found : Text → ApiError
err_table_not_found name = record {
  code = codes "PGRST205";
  message = codes "Table '" ++ (name ++ codes "' not found");
  details = [];
  hint = [];
  status = 404;
}

abbrev pub err_method_not_allowed : Text → ApiError
err_method_not_allowed method = record {
  code = codes "PGRST201";
  message = codes "Method '" ++ (method ++ codes "' not allowed");
  details = [];
  hint = [];
  status = 405;
}

abbrev pub err_invalid_body : Text → ApiError
err_invalid_body detail = record {
  code = codes "PGRST200";
  message = codes "Invalid request body";
  details = detail;
  hint = [];
  status = 422;
}

abbrev pub err_invalid_range : Text → ApiError
err_invalid_range detail = record {
  code = codes "PGRST106";
  message = codes "Invalid Range header";
  details = detail;
  hint = [];
  status = 416;
}

abbrev pub err_no_overlap : ApiError
err_no_overlap = record {
  code = codes "PGRST106";
  message = codes "Range start is greater than the total count";
  details = [];
  hint = [];
  status = 416;
}

abbrev pub err_database : Text → ApiError
err_database detail = record {
  code = codes "PGRST100";
  message = codes "Database error";
  details = detail;
  hint = [];
  status = 500;
}

abbrev pub err_conflict : Text → ApiError
err_conflict detail = record {
  code = codes "23505";
  message = codes "Unique constraint violation";
  details = detail;
  hint = [];
  status = 409;
}

abbrev pub err_invalid_order : Text → ApiError
err_invalid_order detail = record {
  code = codes "PGRST100";
  message = codes "Invalid order syntax";
  details = detail;
  hint = [];
  status = 400;
}

abbrev pub err_singular_return : ApiError
err_singular_return = record {
  code = codes "PGRST106";
  message = codes "Multiple rows returned but singular response requested";
  details = [];
  hint = [];
  status = 300;
}
