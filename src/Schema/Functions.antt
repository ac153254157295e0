-- ===== src/Schema/Functions.antt =====
-- internal/schema/functions.go: the functions that introspection finds, and how the two lists of
-- pg_proc are read.
use rest_trans.Prelude.{
  ℕ, ◌+◌, Bool, false, ◌||◌, List, [], ◌∷◌, ◌++◌, Text, codes, text_eq, is_empty, contains_byte,
  has_prefix, split, trim, trim_space, is_space, decimal, if◌then◌else◌,
}

pub record FuncArg : Type 0 where
  pub name : Text
  pub arg_type : Text
  pub nullable : Bool
  pub default_value : Text

pub record Function : Type 0 where
  pub name : Text
  pub schema_name : Text
  pub return_type : Text
  pub arguments : List FuncArg
  pub language : Text

-- The switch of resolveOIDType.
abbrev oid_types : List (Text × Text)
oid_types =
    (codes "16", codes "boolean")
    ∷ (codes "17", codes "bytea")
    ∷ (codes "18", codes "char")
    ∷ (codes "19", codes "name")
    ∷ (codes "20", codes "bigint")
    ∷ (codes "21", codes "smallint")
    ∷ (codes "23", codes "integer")
    ∷ (codes "25", codes "text")
    ∷ (codes "700", codes "real")
    ∷ (codes "701", codes "double precision")
    ∷ (codes "1042", codes "character")
    ∷ (codes "1043", codes "character varying")
    ∷ (codes "1082", codes "date")
    ∷ (codes "1114", codes "timestamp without time zone")
    ∷ (codes "1184", codes "timestamp with time zone")
    ∷ (codes "1700", codes "numeric")
    ∷ (codes "2950", codes "uuid")
    ∷ (codes "3802", codes "jsonb")
    ∷ (codes "114", codes "json")
    ∷ (codes "142", codes "xml")
    ∷ (codes "143", codes "ARRAY")
    ∷ []

unfoldable pub type_among : List (Text × Text) → Text → Text → Text
unfolding text_eq
type_among [] oid other = other
type_among ((o, t) ∷ types) oid other = if text_eq o oid then t else type_among types oid other

-- `resolveOIDType`.
unfoldable pub resolve_oid_type : Text → Text
unfolding type_among has_prefix
resolve_oid_type oid =
    type_among oid_types oid
      (if has_prefix (codes "1043") oid then codes "character varying" else oid)

abbrev drop_empty : List Text → List Text
drop_empty [] = []
drop_empty (t ∷ ts) = let rest = drop_empty ts in if is_empty t then rest else t ∷ rest

abbrev spaces_to_one : Text → Text
spaces_to_one [] = []
spaces_to_one (c ∷ s) = (if is_space c then 32 else c) ∷ spaces_to_one s

-- `strings.Fields`.
unfoldable pub fields : Text → List Text
unfolding is_space split
fields s = drop_empty (split 32 (spaces_to_one s))

-- The types of the arguments, in one of the three forms of the list.
unfoldable pub type_texts : Text → List Text
unfolding fields split
type_texts s =
    if contains_byte 32 s then fields s else if contains_byte b',' s then split b',' s else s ∷ []

-- The next name of the list, and the rest of it. The list may be shorter than that of the types.
abbrev next_name : Text → List Text → Text
next_name other [] = other
next_name other (n ∷ names) = let name = trim_space n in if is_empty name then other else name

abbrev rest_of : List Text → List Text
rest_of [] = []
rest_of (n ∷ names) = names

-- The loop over the types. A blank type is passed over, with the name at its place.
unfoldable pub args_from : ℕ → List Text → List Text → List FuncArg
unfolding resolve_oid_type trim_space decimal
args_from i [] names = []
args_from i (t ∷ types) names =
    let type_text = trim_space t in
    let rest = args_from (i + 1) types (rest_of names) in
    let arg : FuncArg = record {
      name = next_name (codes "p_" ++ decimal i) names;
      arg_type = resolve_oid_type type_text;
      nullable = false;
      default_value = [];
    } in
    if is_empty type_text then rest else arg ∷ rest

abbrev is_blank_list : Text → Bool
is_blank_list s = is_empty s || text_eq s (codes "{}")

-- `parseFuncArgs`.
unfoldable pub parse_func_args : Text → Text → List FuncArg
unfolding trim_space trim type_texts args_from split text_eq
parse_func_args types names =
    let ts = trim_space types in
    let ns = trim_space names in
    let all_names = if is_blank_list ns then [] else split b',' (trim (codes "{}") ns) in
    if is_blank_list ts then [] else args_from 0 (type_texts (trim (codes "{}") ts)) all_names
