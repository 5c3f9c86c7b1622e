-- ===== src/Contracts/Payload.antt =====
-- Payloads of events: `dict[str, Any]` after a round through JSON, and the reads that the program
-- makes of them. `get` answers `null` for a missing key, as Python's `.get` answers `None`.
use rda_data_director.Prelude.{
  ◌≡◌, arith, ℕ, zero, suc, String, Bool, true, false, List, [], ◌∷◌, Option, none, some, Result,
  ok, err, value_error, other_exception, str_eq, if◌then◌else◌,
}

-- A number is an integer: `neg n` is -(n + 1). The program stores no other number in a payload
-- that it reads back.
mutual
  pub data Json : Type 0 where
    null : Json
    bool : Bool → Json
    nat : ℕ → Json
    neg : ℕ → Json
    text : String → Json
    array : Items → Json
    object : Fields → Json

  pub data Items : Type 0 where
    nil : Items
    cons : Json → Items → Items

  pub data Fields : Type 0 where
    end : Fields
    field : String → Json → Fields → Fields

-- `payload.get(key)`
abbrev pub get : String → Fields → Json
get k end = null
get k (field j v fs) = if str_eq j k then v else get k fs

-- Python's truth of a value.
abbrev pub truthy : Json → Bool
truthy null = false
truthy (bool b) = b
truthy (nat zero) = false
truthy (nat (suc n)) = true
truthy (neg n) = true
truthy (text String.[]) = false
truthy (text (String.◌∷◌ c s)) = true
truthy (array nil) = false
truthy (array (cons v vs)) = true
truthy (object end) = false
truthy (object (field k v fs)) = true

-- `value == s`
abbrev pub is_text : String → Json → Bool
is_text s (text t) = str_eq t s
is_text s _ = false

abbrev pub is_null : Json → Bool
is_null null = true
is_null _ = false

-- `payload[key]`, with `none` for a missing key
abbrev pub find : String → Fields → Option Json
find k end = none
find k (field j v fs) = if str_eq j k then some v else find k fs

abbrev pub items_list : Items → List Json
items_list nil = []
items_list (cons v vs) = v ∷ items_list vs

abbrev pub keys_list : Fields → List Json
keys_list end = []
keys_list (field k v fs) = text k ∷ keys_list fs

abbrev pub char_list : String → List Json
char_list String.[] = []
char_list (String.◌∷◌ c s) = text (String.◌∷◌ c String.[]) ∷ char_list s

-- `list(value)`: TypeError for what cannot be iterated.
abbrev pub python_list : Json → Result (List Json)
python_list (array vs) = ok (items_list vs)
python_list (object fs) = ok (keys_list fs)
python_list (text s) = ok (char_list s)
python_list _ = err other_exception

-- `list(payload.get(key, []))`
abbrev pub list_at : Option Json → Result (List Json)
list_at none = ok []
list_at (some v) = python_list v

-- A field of type `str`, and one of type `str | None`.
abbrev pub a_text : Json → Result String
a_text (text s) = ok s
a_text _ = err value_error

abbrev pub text_or_null : Json → Result (Option String)
text_or_null null = ok none
text_or_null (text s) = ok (some s)
text_or_null _ = err value_error

abbrev pub null_or : Option String → Json
null_or none = null
null_or (some s) = text s

-- A key that is there is read alike by both.
pub get-find : (k : String) (fs : Fields) (v : Json) → find k fs ≡ some v → get k fs ≡ v
get-find k end v h = cc
get-find k (field j w fs) v h = ground (arith, get-find k fs v)
