-- ===== src/OpenApi/Types.antt =====
-- The types of internal/openapi/openapi.go. What `omitempty` leaves out is empty here.
use rest_trans.Prelude.{Bool, false, Option, List, [], Text}

-- A schema may hold others, by name, as its items, or as alternatives. The fields are the type, the
-- reference, the properties, the items, whether it is nullable, the default, what is required, and
-- the alternatives.
mutual
  pub data Schema : Type 0 where
    schema : Text → Text → Properties → Items → Bool → Text → List Text → Alternatives → Schema

  pub data Properties : Type 0 where
    end : Properties
    property : Text → Schema → Properties → Properties

  pub data Items : Type 0 where
    no_items : Items
    items : Schema → Items

  pub data Alternatives : Type 0 where
    none_of : Alternatives
    or_else : Schema → Alternatives → Alternatives

abbrev pub type_schema : Text → Schema
type_schema t = schema t [] end no_items false [] [] none_of

pub record Parameter : Type 0 where
  pub name : Text
  pub place : Text
  pub required : Bool
  pub schema : Schema

-- The content under `application/json`, the one media type of the document.
pub record RequestBody : Type 0 where
  pub required : Bool
  pub json : Schema

pub record Operation : Type 0 where
  pub summary : Text
  pub description : Text
  pub operation_id : Text
  pub tags : List Text
  pub parameters : List Parameter
  pub request_body : Option RequestBody
  pub responses : List (Text × Text)

abbrev pub PathItem : Type 0
PathItem = List (Text × Operation)

pub record ColumnSchema : Type 0 where
  pub data_type : Text
  pub nullable : Bool
  pub default : Text

-- The component of a table.
pub record TableSchema : Type 0 where
  pub properties : List (Text × ColumnSchema)
  pub required : List Text

pub record Spec : Type 0 where
  pub openapi : Text
  pub title : Text
  pub description : Text
  pub version : Text
  pub servers : List (Text × Text)
  pub paths : List (Text × PathItem)
  pub schemas : List (Text × TableSchema)
