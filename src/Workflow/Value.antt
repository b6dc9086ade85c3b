-- ===== src/Workflow/Value.antt =====
-- The dynamic values: truth, equality, and the functions `_get_path`, `_resolve_value` and
-- `_render_template` of backend/app/workflow/executor.py.
use Prim.Native.Char.{code}
use Prim.Native.String.{◌++◌ as str_append}
use enterprise_ai_agent.Prelude.{
  ℕ, zero, suc, Bool, true, false, ◌&&◌, not, Option, none, some, List, [], ◌∷◌, String, ◌==◌,
  if◌then◌else◌,
}
use enterprise_ai_agent.Prelude.Int.{ℤ, pos, negsuc}
use enterprise_ai_agent.Prelude.Text.{str_eq}
use enterprise_ai_agent.Prelude.TextDict.{TextDict, lookup, insert}
use enterprise_ai_agent.Workflow.Node.{
  Value, null, bool, int, str, arr, obj, Items, nil, cons, Fields, blank, entry,
}
use enterprise_ai_agent.Workflow.Graph.{Raises, ok}

-- `bool(v)`
unfoldable pub truthy : Value → Bool
truthy null = false
truthy (bool b) = b
truthy (int (pos zero)) = false
truthy (int _) = true
truthy (str s) = not (str_eq s "")
truthy (arr nil) = false
truthy (arr (cons v vs)) = true
truthy (obj blank) = false
truthy (obj (entry k v fs)) = true

unfoldable pub find_field : String → Fields → Option Value
find_field k blank = none
find_field k (entry j v fs) = if str_eq j k then some v else find_field k fs

unfoldable pub field_count : Fields → ℕ
field_count blank = 0
field_count (entry j v fs) = suc (field_count fs)

-- `True == 1` and `False == 0` in Python.
unfoldable pub as_int : Bool → ℤ
as_int true = pos 1
as_int false = pos 0

unfoldable pub int_eq : ℤ → ℤ → Bool
int_eq (pos a) (pos b) = a == b
int_eq (negsuc a) (negsuc b) = a == b
int_eq _ _ = false

unfoldable pub bool_eq : Bool → Bool → Bool
bool_eq true b = b
bool_eq false b = not b

-- `==` on values: dictionaries without regard to the order of their keys.
unfoldable mutual
  pub value_eq : Value → Value → Bool
  value_eq null null = true
  value_eq (bool a) (bool b) = bool_eq a b
  value_eq (bool a) (int b) = int_eq (as_int a) b
  value_eq (int a) (bool b) = int_eq a (as_int b)
  value_eq (int a) (int b) = int_eq a b
  value_eq (str a) (str b) = str_eq a b
  value_eq (arr xs) (arr ys) = items_eq xs ys
  value_eq (obj fs) (obj gs) = (field_count fs == field_count gs) && fields_in fs gs
  value_eq _ _ = false

  pub items_eq : Items → Items → Bool
  items_eq nil nil = true
  items_eq (cons x xs) (cons y ys) = value_eq x y && items_eq xs ys
  items_eq _ _ = false

  pub fields_in : Fields → Fields → Bool
  fields_in blank gs = true
  fields_in (entry k v fs) gs = elim (find_field k gs) [
    | none ↦ false
    | some w ↦ value_eq v w && fields_in fs gs
  ]

unfoldable pub to_fields : TextDict Value → Fields
to_fields [] = blank
to_fields ((k, v) ∷ d) = entry k v (to_fields d)

-- `d.update(fields)`
unfoldable pub update_with : Fields → TextDict Value → TextDict Value
update_with blank d = d
update_with (entry k v fs) d = update_with fs (insert k v d)

-- Python's own functions on texts, its rendering of numbers and containers, and that of a member of an
-- Enum class in an f-string, from the names of class and member and its value. `dict_of` is `dict` of a
-- value that is no dictionary and not falsy: the pairs that it lists, or an exception.
pub record Python : Type 0 where
  pub enum_text : String → String → String → String
  pub repr : Value → String
  pub lower : String → String
  pub strip : String → String
  pub dict_of : Value → Raises Fields

-- `dict(v or {})`
unfoldable pub dict_field : Python → Value → Raises Fields
unfolding truthy
dict_field py (obj fs) = ok fs
dict_field py v = if truthy v then py.dict_of v else ok blank

-- `str(v)`
unfoldable pub to_str : Python → Value → String
to_str py null = "None"
to_str py (bool true) = "True"
to_str py (bool false) = "False"
to_str py (str s) = s
to_str py v = py.repr v

-- `key.split(".")`, with the part that is read so far.
split_from : String → String → List String
split_from part String.[] = part ∷ []
split_from part (String.◌∷◌ c s) =
    let rest = split_from String.[] s in
    let more = split_from (str_append part (String.◌∷◌ c String.[])) s in
    if code c == b'.' then part ∷ rest else more

unfoldable pub split_dots : String → List String
unfolding split_from
split_dots = split_from ""

-- The walk of `_get_path`; a missing key gives None.
unfoldable pub walk : List String → Value → Value
walk [] current = current
walk (part ∷ parts) (obj fs) = elim (find_field part fs) [
  | none ↦ walk parts null
  | some v ↦ walk parts v
]
walk (part ∷ parts) _ = null

-- `_get_path`
unfoldable pub get_path : TextDict Value → String → Value
unfolding walk split_dots to_fields
get_path d key =
    if str_eq key ""
    then null
    else elim (lookup key d) [ some v ↦ v | none ↦ walk (split_dots key) (obj (to_fields d)) ]

-- A text without its last character, if that is a closing brace.
before_brace : String → Option String
before_brace String.[] = none
before_brace (String.◌∷◌ c String.[]) = if code c == b'}' then some "" else none
before_brace (String.◌∷◌ c s) = elim (before_brace s) [
  | none ↦ none
  | some t ↦ some (String.◌∷◌ c t)
]

-- `value[1:-1]` of a text that starts with `{` and ends with `}`.
braced : String → Option String
unfolding before_brace
braced String.[] = none
braced (String.◌∷◌ c s) = if code c == b'{' then before_brace s else none

-- `_resolve_value`
unfoldable pub resolve_value : Value → TextDict Value → Value
unfolding braced get_path
resolve_value (str s) shared = elim (braced s) [ some key ↦ get_path shared key | none ↦ str s ]
resolve_value v shared = v

-- `re.sub(r"\{([^}]+)\}", replacer, template)`, character by character: `none` outside of braces, and
-- the characters since the opening brace inside. A brace that is not closed, or closed at once, is
-- left as it is.
unfoldable pub substitute : (String → String) → Option String → String → String
substitute f none String.[] = ""
substitute f (some key) String.[] = String.◌∷◌ "{" key
substitute f none (String.◌∷◌ c s) =
    let inside = substitute f (some "") s in
    let outside = String.◌∷◌ c (substitute f none s) in if code c == b'{' then inside else outside
substitute f (some key) (String.◌∷◌ c s) =
    let closed = substitute f none s in
    let more = substitute f (some (str_append key (String.◌∷◌ c String.[]))) s in
    if code c == b'}'
    then if str_eq key "" then str_append "{}" closed else str_append (f key) closed
    else more

-- `d.setdefault(k, v)`
unfoldable pub set_default : String → Value → TextDict Value → TextDict Value
set_default k v d = elim (lookup k d) [ none ↦ insert k v d | some _ ↦ d ]

-- `_render_template`
unfoldable pub render_template : Python → String → TextDict Value → String → String
unfolding substitute set_default get_path to_str
render_template py template shared user_message =
    let values = set_default "user_message" (str user_message) shared in
    substitute (λ key. elim (get_path values key) [ null ↦ "" | v ↦ to_str py v ]) none template
