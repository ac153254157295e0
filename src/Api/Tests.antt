-- ===== src/Api/Tests.antt =====
-- Runs of the calls of internal/api/handler.go.
use rest_trans.Prelude.{ℕ, ◌+◌, ◌≡◌, refl, true, false, [], ◌∷◌, ◌++◌, none, Text, codes}
use rest_trans.Schema.{Column, Table, SchemaStore}
use rest_trans.Transaction.Types.{number, string}
use rest_trans.Query.Parse.{Pairs}
use rest_trans.Query.Builder.Write.{update_sql, set_clauses}
use rest_trans.Api.Types.{
  Body, array, object, Request, Checked, refused, passed, Prepared, Database, ran, selected, named,
  counted,
}
use rest_trans.Api.Post.{prepare_post}
use rest_trans.Api.Put.{prepare_put, statement_of}
use rest_trans.Api.Routes.{patch, prepare_write, written_row}
use rest_trans.Api.Routes.Sent.{prepare_write-IsBalanced}
use rest_trans.Api.Reads.{page_of}
use rest_trans.Prelude.Int.{pos}
use rest_trans.Api.Routes.Guarded.{IsGuarded, prepare_write-IsGuarded}
use rest_trans.Query.Params.{no_params}
use rest_trans.Sql.{lit, raw, placeholder, join_sql, render, placeholders, count_from}

abbrev title : Text
title = codes "title"

abbrev column : Text → Column
column name = record {
  name = name;
  data_type = codes "text";
  is_nullable = true;
  is_pk = false;
  is_unique = false;
  default_value = [];
  ordinal_pos = 1;
  character_max_len = 0;
}

abbrev pub books : Table
books = record {
  name = codes "books";
  schema_name = codes "shop";
  columns = (codes "id", column (codes "id")) ∷ (title, column title) ∷ [];
  column_order = codes "id" ∷ title ∷ [];
  pk = codes "id";
  is_view = false;
  foreign_keys = [];
  unique_constraints = [];
  allowed_methods = none;
  deny_methods = [];
  fts_language = [];
}

abbrev pub shop : SchemaStore
shop = record {
  schemas = (codes "shop", (codes "books", books) ∷ []) ∷ [];
  functions = [];
  default_schema = codes "shop";
}

abbrev pub request_of : Text → Text → Body → Request
request_of prefer query body = record {
  schema = codes "shop";
  table = codes "books";
  content_profile = [];
  accept_profile = [];
  range = [];
  accept = [];
  prefer = prefer;
  raw_query = query;
  on_conflict = [];
  body = body;
}

abbrev two_books : Body
two_books = array (
    ((codes "id", number (codes "1")) ∷ (title, string (codes "Go")) ∷ [])
    ∷ ((title, string (codes "C")) ∷ [])
    ∷ [])

abbrev upserting : Request
upserting = request_of (codes "resolution=merge-duplicates, return=minimal") [] two_books

text_of : Checked Prepared → Text
text_of (refused r) = []
text_of (passed p) = render p.sql

upsert_text :
    text_of (prepare_post shop upserting)
    ≡ codes
        "INSERT INTO shop.books (id, title) VALUES ($1, $2), ($3, $4) ON CONFLICT (id) DO UPDATE SET title = EXCLUDED.title"
unfolding text_of prepare_post render
upsert_text = refl

-- A PUT of the key alone is no SQL.
key_only :
    text_of (
      statement_of
        (prepare_put shop (request_of [] [] (object ((codes "id", number (codes "1")) ∷ [])))))
    ≡ codes "INSERT INTO shop.books (id) VALUES ($1) ON CONFLICT (id) DO UPDATE SET DO NOTHING"
unfolding text_of prepare_put render
key_only = refl

abbrev pub no_order : Pairs → Pairs
no_order ps = ps

abbrev pub renaming : Request
renaming = request_of [] (codes "id=eq.1") (object ((title, string (codes "Go")) ∷ []))

abbrev rename : Prepared
rename = record {
  sql =
      update_sql (codes "shop.books") (title ∷ [])
        (raw (codes "id") ++ (lit " " ++ (lit "=" ++ (lit " " ++ placeholder 2))));
  args = string (codes "Go") ∷ string (codes "1") ∷ [];
}

rename_text : render rename.sql ≡ codes "UPDATE shop.books SET title = $1 WHERE id = $2"
unfolding render set_clauses join_sql
rename_text = refl

rename_passed : prepare_write no_order patch shop renaming ≡ passed rename
unfolding prepare_write set_clauses join_sql
rename_passed = refl

prepare_write-IsBalanced_example : placeholders rename.sql ≡ count_from 1 2
prepare_write-IsBalanced_example =
    prepare_write-IsBalanced no_order patch shop renaming rename_passed

prepare_write-IsGuarded_example : IsGuarded shop renaming (written_row patch renaming.body)
prepare_write-IsGuarded_example = prepare_write-IsGuarded no_order patch shop renaming rename_passed

-- A database that counts its calls and says that each has changed one row.
abbrev pub counting : Database ℕ
counting = record {
  exec = λ text args s. ran (pos 1) (s + 1);
  query = λ text args s. (selected (named []) [], s + 1);
  count = λ text args s. counted (pos 0);
}

-- A header `Range` is read where the query string has no limit.
paged : (page_of (codes "items=20-39") no_params).range ≡ record { limit = pos 20; offset = pos 20 }
unfolding page_of
paged = refl
