-- ===== src/Json.antt =====
-- JSON values as Python holds them, and `json.dumps` as the program calls it: with or without sorted
-- keys, `ensure_ascii=False`, and the separators given. An object keeps the order of insertion. A
-- float is its bit pattern; how `repr` prints one is a parameter.
pub mod Digits
pub mod Lookup
pub mod Order
use mcp_assist_memory.Prelude.{
  ℕ, zero, suc, ◌+◌, ◌*◌, ◌/◌, ◌%◌, Text, codes, Bool, true, false, Option, none, some, List, [],
  ◌∷◌, ◌++◌, ltb, leb, ◌==◌, text_eq, if◌then◌else◌, or_else,
}
use mcp_assist_memory.Json.Digits.{decimal, hex_digit}

mutual
  pub data Json : Type 0 where
    null : Json
    bool : Bool → Json
    -- a Python `int`: whether it is negative, and its magnitude
    int : Bool → ℕ → Json
    float : ℕ → Json
    str : Text → Json
    arr : Items → Json
    obj : Fields → Json

  pub data Items : Type 0 where
    nil : Items
    cons : Json → Items → Items

  pub data Fields : Type 0 where
    end : Fields
    field : Text → Json → Fields → Fields

-- `d.get(k)`; a key stands once, since a Python dict is built by `set_field`.
unfoldable pub get_field : Text → Fields → Option Json
get_field k end = none
get_field k (field j v fs) = if text_eq j k then some v else get_field k fs

-- `d.get(k)` where a caller tells `None` from a value: a JSON null is `None`.
abbrev pub present : Option Json → Option Json
present none = none
present (some null) = none
present (some v) = some v

unfoldable pub get : Text → Fields → Option Json
unfolding get_field
get k fs = present (get_field k fs)

-- `d[k] = v`
unfoldable pub set_field : Text → Json → Fields → Fields
set_field k v end = field k v end
set_field k v (field j w fs) = if text_eq j k then field j v fs else field j w (set_field k v fs)

-- `d.pop(k, None)`
unfoldable pub drop_field : Text → Fields → Fields
drop_field k end = end
drop_field k (field j w fs) =
    let rest = drop_field k fs in if text_eq j k then rest else field j w rest

-- `bool(v)`, with the bit patterns of 0.0 and -0.0
unfoldable pub truthy : Json → Bool
truthy null = false
truthy (bool b) = b
truthy (int s zero) = false
truthy (int s (suc n)) = true
truthy (float bits) =
    if bits == 0 then false else if bits == 9223372036854775808 then false else true
truthy (str []) = false
truthy (str (c ∷ s)) = true
truthy (arr nil) = false
truthy (arr (cons v vs)) = true
truthy (obj end) = false
truthy (obj (field k v fs)) = true

-- `bool(d.get(k))`
abbrev pub opt_truthy : Option Json → Bool
opt_truthy none = false
opt_truthy (some v) = truthy v

-- the order of `sorted` on texts
unfoldable pub text_lt : Text → Text → Bool
text_lt [] [] = false
text_lt [] (d ∷ t) = true
text_lt (c ∷ s) [] = false
text_lt (c ∷ s) (d ∷ t) = if ltb c d then true else if c == d then text_lt s t else false

insert_field : Text → Json → Fields → Fields
insert_field k v end = field k v end
insert_field k v (field j w fs) =
    if text_lt j k then field j w (insert_field k v fs) else field k v (field j w fs)

unfoldable pub sort_fields : Fields → Fields
unfolding insert_field text_lt
sort_fields end = end
sort_fields (field k v fs) = insert_field k v (sort_fields fs)

-- the escapes of `json.dumps(…, ensure_ascii=False)`
escape : ℕ → Text
escape c =
    if c == 34
    then 92 ∷ 34 ∷ []
    else if c == 92
    then 92 ∷ 92 ∷ []
    else if c == 10
    then 92 ∷ 110 ∷ []
    else if c == 13
    then 92 ∷ 114 ∷ []
    else if c == 9
    then 92 ∷ 116 ∷ []
    else if c == 8
    then 92 ∷ 98 ∷ []
    else if c == 12
    then 92 ∷ 102 ∷ []
    else if ltb c 32
    then 92 ∷ 117 ∷ 48 ∷ 48 ∷ hex_digit (c / 16) ∷ hex_digit (c % 16) ∷ []
    else c ∷ []

escaped : Text → Text
escaped [] = []
escaped (c ∷ s) = escape c ++ escaped s

abbrev quoted : Text → Text
quoted s = 34 ∷ (escaped s ++ 34 ∷ [])

pub record Style : Type 0 where
  pub item_sep : Text
  pub key_sep : Text
  pub sorted : Bool
  pub float_repr : ℕ → Text

module _ (style : Style) where
  abbrev sep : Text → Bool → Text
  sep s true = []
  sep s false = s

  unfoldable mutual
    unfolding escape escaped decimal hex_digit

    pub dumps : Json → Text
    dumps null = codes "null"
    dumps (bool true) = codes "true"
    dumps (bool false) = codes "false"
    dumps (int true n) = 45 ∷ decimal n
    dumps (int false n) = decimal n
    dumps (float bits) = style.float_repr bits
    dumps (str s) = quoted s
    dumps (arr vs) = 91 ∷ (dump_items true vs ++ 93 ∷ [])
    dumps (obj fs) = 123 ∷ (dump_fields true fs ++ 125 ∷ [])

    pub dump_items : Bool → Items → Text
    dump_items first nil = []
    dump_items first (cons v vs) = sep style.item_sep first ++ (dumps v ++ dump_items false vs)

    pub dump_fields : Bool → Fields → Text
    dump_fields first end = []
    dump_fields first (field k v fs) =
        sep style.item_sep first
        ++ (quoted k ++ (style.key_sep ++ (dumps v ++ dump_fields false fs)))

-- `sort_keys=True` sorts every object, at every depth.
unfoldable mutual
  unfolding sort_fields

  pub sort_keys : Json → Json
  sort_keys null = null
  sort_keys (bool b) = bool b
  sort_keys (int s n) = int s n
  sort_keys (float b) = float b
  sort_keys (str s) = str s
  sort_keys (arr vs) = arr (sort_keys_items vs)
  sort_keys (obj fs) = obj (sort_fields (sort_keys_fields fs))

  pub sort_keys_items : Items → Items
  sort_keys_items nil = nil
  sort_keys_items (cons v vs) = cons (sort_keys v) (sort_keys_items vs)

  pub sort_keys_fields : Fields → Fields
  sort_keys_fields end = end
  sort_keys_fields (field k v fs) = field k (sort_keys v) (sort_keys_fields fs)

-- `json.dumps(v, sort_keys=style.sorted, …)`
unfoldable pub dumped : Style → Json → Text
dumped style v = if style.sorted then dumps style (sort_keys v) else dumps style v
