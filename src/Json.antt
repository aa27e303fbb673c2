-- ===== src/Json.antt =====
-- JSON values and `canonicalize` of packages/core/src/attenuation.ts, with what it uses of
-- `JSON.stringify`: strings with their escapes, integers, booleans and null. A value of the kind
-- that `canonicalize` refuses (undefined, a function) is no `Json`.
mod Tests
use Prim.Native.String.{String}
use hearthold.Prelude.{
  ℕ, zero, suc, ◌+◌, ◌-◌, ◌/◌, ◌%◌, Bool, true, false, ◌&&◌, ◌||◌, List, [], ◌∷◌, ◌++◌, leb, ltb,
  ◌==◌, if◌then◌else◌, Text, codes, text_leb,
}
use hearthold.Prelude.Int.{ℤ, pos, negsuc}

mutual
  pub data Json : Type 0 where
    null : Json
    bool : Bool → Json
    num : ℤ → Json
    str : Text → Json
    arr : Items → Json
    obj : Fields → Json

  pub data Items : Type 0 where
    nil : Items
    cons : Json → Items → Items

  pub data Fields : Type 0 where
    end : Fields
    field : Text → Json → Fields → Fields

-- Decimal digits; the fuel is above the number, so it never runs out.
decimal_from : ℕ → ℕ → Text
decimal_from zero n = []
decimal_from (suc fuel) n =
    let more = decimal_from fuel (n / 10) ++ (b'0' + n % 10) ∷ [] in
    if ltb n 10 then (b'0' + n) ∷ [] else more

decimal : ℕ → Text
unfolding decimal_from
decimal n = decimal_from (suc n) n

integer : ℤ → Text
unfolding decimal
integer (pos n) = decimal n
integer (negsuc n) = b'-' ∷ decimal (suc n)

hex_digit : ℕ → ℕ
hex_digit d = if ltb d 10 then b'0' + d else b'a' + (d - 10)

-- `\uXXXX`
unicode_escape : ℕ → Text
unfolding hex_digit
unicode_escape c =
    b'\\'
    ∷ b'u'
    ∷ hex_digit (c / 4096)
    ∷ hex_digit (c / 256 % 16)
    ∷ hex_digit (c / 16 % 16)
    ∷ hex_digit (c % 16)
    ∷ []

is_high : ℕ → Bool
is_high c = leb 0xd800 c && leb c 0xdbff

is_low : ℕ → Bool
is_low c = leb 0xdc00 c && leb c 0xdfff

-- One code unit that is no half of a surrogate pair.
escape_unit : ℕ → Text
unfolding unicode_escape is_high is_low
escape_unit c =
    if c == b'"'
    then b'\\' ∷ b'"' ∷ []
    else if c == b'\\'
    then b'\\' ∷ b'\\' ∷ []
    else if c == 8
    then b'\\' ∷ b'b' ∷ []
    else if c == 9
    then b'\\' ∷ b't' ∷ []
    else if c == 10
    then b'\\' ∷ b'n' ∷ []
    else if c == 12
    then b'\\' ∷ b'f' ∷ []
    else if c == 13
    then b'\\' ∷ b'r' ∷ []
    else if ltb c 32 || is_high c || is_low c
    then unicode_escape c
    else c ∷ []

escape_units : Text → Text
unfolding escape_unit
escape_units [] = []
escape_units (c ∷ []) = escape_unit c
escape_units (c ∷ d ∷ rest) =
    let pair = c ∷ d ∷ escape_units rest in
    let single = escape_unit c ++ escape_units (d ∷ rest) in
    if is_high c && is_low d then pair else single

-- `JSON.stringify` on a string.
quote : Text → Text
unfolding escape_units
quote s = b'"' ∷ escape_units s ++ b'"' ∷ []

-- `Object.keys(o).sort()`, over members whose values are encoded already.
insert_member : Text × Text → List (Text × Text) → List (Text × Text)
insert_member (k, v) [] = (k, v) ∷ []
insert_member (k, v) ((j, w) ∷ rest) =
    if text_leb k j then (k, v) ∷ (j, w) ∷ rest else (j, w) ∷ insert_member (k, v) rest

sort_members : List (Text × Text) → List (Text × Text)
unfolding insert_member
sort_members [] = []
sort_members (m ∷ ms) = insert_member m (sort_members ms)

-- `xs.join(',')`
join : List Text → Text
join [] = []
join (x ∷ []) = x
join (x ∷ y ∷ rest) = x ++ b',' ∷ join (y ∷ rest)

member_texts : List (Text × Text) → List Text
member_texts [] = []
member_texts ((k, v) ∷ rest) = (quote k ++ b':' ∷ v) ∷ member_texts rest

unfoldable mutual
  unfolding integer quote sort_members join member_texts

  pub canonicalize : Json → Text
  canonicalize null = codes "null"
  canonicalize (bool true) = codes "true"
  canonicalize (bool false) = codes "false"
  canonicalize (num n) = integer n
  canonicalize (str s) = quote s
  canonicalize (arr xs) = b'[' ∷ join (encode_items xs) ++ b']' ∷ []
  canonicalize (obj fs) = b'{' ∷ join (member_texts (sort_members (encode_members fs))) ++ b'}' ∷ []

  pub encode_items : Items → List Text
  encode_items nil = []
  encode_items (cons x xs) = canonicalize x ∷ encode_items xs

  pub encode_members : Fields → List (Text × Text)
  encode_members end = []
  encode_members (field k v fs) = (k, canonicalize v) ∷ encode_members fs

-- An array of strings.
unfoldable pub string_items : List Text → Items
string_items [] = nil
string_items (s ∷ ss) = cons (str s) (string_items ss)
