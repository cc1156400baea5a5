-- ===== src/Json.antt =====
-- JSON values as Python reads them: telegram_bot_listener/json_types.py. Integers are not negative
-- (Telegram's ids of users, private chats, messages and updates are positive), and there are no
-- fractions. What `int` makes of a text and `str` of a list or an object is the argument `python`.
use orchestra_threads.Prelude.{
  ℕ, zero, suc, ◌≡◌, refl, Bool, true, false, Option, none, some, List, [], ◌∷◌, Result, ok, err,
  value_error, key_error, if◌then◌else◌,
}
use orchestra_threads.Text.{Text, lit, strip, is_empty, non_empty}
use orchestra_threads.Text.Decimal.{str_int}
use orchestra_threads.Dict.{Dict, get}

mutual
  pub data Json : Type 0 where
    null : Json
    boolean : Bool → Json
    number : ℕ → Json
    string : Text → Json
    array : Items → Json
    object : Fields → Json

  pub data Items : Type 0 where
    nothing : Items
    item : Json → Items → Items

  pub data Fields : Type 0 where
    finish : Fields
    field : Text → Json → Fields → Fields

-- A list of the program as the items of an array, and back.
unfoldable pub array_items : List Json → Items
array_items [] = nothing
array_items (x ∷ xs) = item x (array_items xs)

unfoldable pub item_list : Items → List Json
item_list nothing = []
item_list (item x xs) = x ∷ item_list xs

unfoldable pub object_fields : Dict Json → Fields
object_fields [] = finish
object_fields ((k, x) ∷ d) = field k x (object_fields d)

unfoldable pub field_dict : Fields → Dict Json
field_dict finish = []
field_dict (field k x d) = (k, x) ∷ field_dict d

pub item_list-array_items : (xs : List Json) → item_list (array_items xs) ≡ xs
unfolding item_list array_items
item_list-array_items [] = refl
item_list-array_items (x ∷ xs) = rw (item_list-array_items xs) refl

pub field_dict-object_fields : (d : Dict Json) → field_dict (object_fields d) ≡ d
unfolding field_dict object_fields
field_dict-object_fields [] = refl
field_dict-object_fields ((k, x) ∷ d) = rw (field_dict-object_fields d) refl

-- An object that is written out in the source.
abbrev pub new_object : Dict Json → Json
new_object d = object (object_fields d)

pub record Python : Type 0 where
  pub int_of_text : Text → Option ℕ
  pub str_of_container : Json → Text

-- `bool(value)`
unfoldable pub truth : Json → Bool
truth null = false
truth (boolean b) = b
truth (number zero) = false
truth (number (suc n)) = true
truth (string s) = non_empty s
truth (array nothing) = false
truth (array (item x xs)) = true
truth (object finish) = false
truth (object (field k x d)) = true

unfoldable pub cast_json_dict : Option Json → Dict Json
cast_json_dict none = []
cast_json_dict (some null) = []
cast_json_dict (some (boolean b)) = []
cast_json_dict (some (number n)) = []
cast_json_dict (some (string s)) = []
cast_json_dict (some (array xs)) = []
cast_json_dict (some (object d)) = field_dict d

unfoldable pub cast_json_list : Option Json → List Json
cast_json_list none = []
cast_json_list (some null) = []
cast_json_list (some (boolean b)) = []
cast_json_list (some (number n)) = []
cast_json_list (some (string s)) = []
cast_json_list (some (array xs)) = item_list xs
cast_json_list (some (object d)) = []

-- `payload[key]`
unfoldable pub required : Text → Dict Json → Result Json
required k d = elim (get k d) [ none ↦ err (key_error k) | some x ↦ ok x ]

module _ (python : Python) where
  unfoldable pub str_json : Json → Text
  str_json null = lit "None"
  str_json (boolean true) = lit "True"
  str_json (boolean false) = lit "False"
  str_json (number n) = str_int n
  str_json (string s) = s
  str_json (array xs) = python.str_of_container (array xs)
  str_json (object d) = python.str_of_container (object d)

  -- `str(value or "").strip()`
  unfoldable pub stripped_text : Option Json → Text
  unfolding truth str_json
  stripped_text none = []
  stripped_text (some x) = strip (if truth x then str_json x else [])

  unfoldable pub optional_json_text : Option Json → Option Text
  unfolding stripped_text
  optional_json_text value =
      let text = stripped_text value in if is_empty text then none else some text

  int_or_raise : Option ℕ → Result ℕ
  int_or_raise none = err (value_error (lit "invalid literal for int() with base 10"))
  int_or_raise (some n) = ok n

  unfoldable pub parse_int : Json → Result ℕ
  unfolding int_or_raise
  parse_int (boolean true) = ok 1
  parse_int (boolean false) = ok 0
  parse_int (number n) = ok n
  parse_int (string s) = int_or_raise (python.int_of_text (strip s))
  parse_int null = err (value_error (lit "Expected int-compatible value"))
  parse_int (array xs) = err (value_error (lit "Expected int-compatible value"))
  parse_int (object d) = err (value_error (lit "Expected int-compatible value"))
