-- ===== src/Query/Order.antt =====
-- `parseOrder` of internal/query/params.go. It has no error; a word that it does not know is passed
-- over, and no column is checked.
use rest_trans.Prelude.{
  List, [], ◌∷◌, Text, codes, text_eq, split, trim_space, to_lower, is_empty, if◌then◌else◌,
}
use rest_trans.Query.Params.{OrderItem, asc, desc}

-- One round of the inner loop, on a word in lower case.
unfoldable pub order_word : OrderItem → Text → OrderItem
unfolding text_eq
order_word item word =
    if text_eq word (codes "asc")
    then record item { direction = asc }
    else if text_eq word (codes "desc")
    then record item { direction = desc }
    else if text_eq word (codes "nullsfirst")
    then record item { nulls = codes "nulls first" }
    else if text_eq word (codes "nullslast")
    then record item { nulls = codes "nullslast" }
    else item

unfoldable pub order_words : OrderItem → List Text → OrderItem
unfolding order_word to_lower
order_words item [] = item
order_words item (chunk ∷ chunks) = order_words (order_word item (to_lower chunk)) chunks

abbrev order_chunks : List Text → OrderItem
order_chunks [] = record { column = []; direction = asc; nulls = codes "nulls first" }
order_chunks (column ∷ chunks) =
    order_words (record { column = column; direction = asc; nulls = codes "nulls first" }) chunks

unfoldable pub order_item : Text → OrderItem
unfolding order_words split
order_item part = order_chunks (split b'.' part)

unfoldable pub order_parts : List Text → List OrderItem
unfolding order_item trim_space
order_parts [] = []
order_parts (part ∷ rest) =
    let items = order_parts rest in
    let part' = trim_space part in if is_empty part' then items else order_item part' ∷ items

unfoldable pub parse_order : Text → List OrderItem
unfolding order_parts split
parse_order value = order_parts (split b',' value)
