-- ===== src/Json.antt =====
-- The JSON values that prototype/*.py serialises, and `json.dumps` with `sort_keys=True` and
-- `separators=(",", ":")`: the bytes that digests and signatures are taken over.
use Prim.Native.Char.{code}
use llm_errata.Prelude.{
  ℕ, zero, suc, ◌+◌, ◌-◌, ◌/◌, ◌%◌, Bool, true, Option, none, some, List, [], ◌∷◌, ◌++◌, String,
  str_lt, ltb, nat_eq, if◌then◌else◌, ◌≡◌, refl, Dict,
}

-- `num n` is n, and `neg n` is -(n + 1). There are no fractions.
mutual
  pub data Json : Type 0 where
    null : Json
    bool : Bool → Json
    num : ℕ → Json
    neg : ℕ → Json
    str : String → Json
    arr : Items → Json
    obj : Fields → Json

  pub data Items : Type 0 where
    nil : Items
    cons : Json → Items → Items

  pub data Fields : Type 0 where
    end : Fields
    field : String → Json → Fields → Fields

-- The code points of a text.
abbrev pub codes : String → List ℕ
codes String.[] = []
codes (String.◌∷◌ c s) = code c ∷ codes s

-- s.encode("utf-8"), one code point at a time
unfoldable pub utf8_char : ℕ → List ℕ
utf8_char c =
    if ltb c 0x80
    then c ∷ []
    else if ltb c 0x800
    then (0xc0 + c / 64) ∷ (0x80 + c % 64) ∷ []
    else if ltb c 0x10000
    then (0xe0 + c / 4096) ∷ (0x80 + c / 64 % 64) ∷ (0x80 + c % 64) ∷ []
    else (0xf0 + c / 262144) ∷ (0x80 + c / 4096 % 64) ∷ (0x80 + c / 64 % 64) ∷ (0x80 + c % 64) ∷ []

unfoldable pub utf8 : List ℕ → List ℕ
unfolding utf8_char
utf8 [] = []
utf8 (c ∷ cs) = utf8_char c ++ utf8 cs

unfoldable pub encode : String → List ℕ
unfolding utf8
encode s = utf8 (codes s)

unfoldable pub hex_digit : ℕ → ℕ
hex_digit d = if ltb d 10 then b'0' + d else b'a' + (d - 10)

unicode_escape : ℕ → List ℕ
unfolding hex_digit
unicode_escape c =
    b'\\'
    ∷ b'u'
    ∷ hex_digit (c / 4096 % 16)
    ∷ hex_digit (c / 256 % 16)
    ∷ hex_digit (c / 16 % 16)
    ∷ hex_digit (c % 16)
    ∷ []

-- One character of a text. With `ensure_ascii` everything outside ASCII is escaped, as a
-- surrogate pair above 0xffff.
escape : Bool → ℕ → List ℕ
unfolding unicode_escape
escape ascii c =
    if nat_eq c b'"'
    then b'\\' ∷ b'"' ∷ []
    else if nat_eq c b'\\'
    then b'\\' ∷ b'\\' ∷ []
    else if nat_eq c 10
    then b'\\' ∷ b'n' ∷ []
    else if nat_eq c 13
    then b'\\' ∷ b'r' ∷ []
    else if nat_eq c 9
    then b'\\' ∷ b't' ∷ []
    else if nat_eq c 8
    then b'\\' ∷ b'b' ∷ []
    else if nat_eq c 12
    then b'\\' ∷ b'f' ∷ []
    else if ltb c 32
    then unicode_escape c
    else if ltb c 127
    then c ∷ []
    else if ascii
    then (if ltb c 0x10000
        then unicode_escape c
        else unicode_escape (0xd800 + (c - 0x10000) / 1024)
          ++ unicode_escape (0xdc00 + (c - 0x10000) % 1024))
    else c ∷ []

escape_all : Bool → List ℕ → List ℕ
unfolding escape
escape_all ascii [] = []
escape_all ascii (c ∷ cs) = escape ascii c ++ escape_all ascii cs

quote : Bool → String → List ℕ
unfolding escape_all
quote ascii s = b'"' ∷ escape_all ascii (codes s) ++ b'"' ∷ []

-- Decimal digits in front of `rest`; `n + 1` rounds are enough, since `n / 10` falls.
digits : ℕ → ℕ → List ℕ → List ℕ
digits zero n rest = rest
digits (suc fuel) n rest =
    let here = (b'0' + n % 10) ∷ rest in
    let more = digits fuel (n / 10) here in if ltb n 10 then here else more

unfoldable pub decimal : ℕ → List ℕ
unfolding digits
decimal n = digits (suc n) n []

insert_field : String → Json → Fields → Fields
insert_field k v end = field k v end
insert_field k v (field j w fs) =
    if str_lt j k then field j w (insert_field k v fs) else field k v (field j w fs)

sort_fields : Fields → Fields
unfolding insert_field
sort_fields end = end
sort_fields (field k v fs) = insert_field k v (sort_fields fs)

unfoldable mutual
  unfolding sort_fields

  -- sort_keys=True, at every depth
  pub sort_json : Json → Json
  sort_json null = null
  sort_json (bool b) = bool b
  sort_json (num n) = num n
  sort_json (neg n) = neg n
  sort_json (str s) = str s
  sort_json (arr xs) = arr (sort_items xs)
  sort_json (obj fs) = obj (sort_fields (sort_values fs))

  pub sort_items : Items → Items
  sort_items nil = nil
  sort_items (cons x xs) = cons (sort_json x) (sort_items xs)

  pub sort_values : Fields → Fields
  sort_values end = end
  sort_values (field k v fs) = field k (sort_json v) (sort_values fs)

mutual
  unfolding decimal quote

  print : Bool → Json → List ℕ
  print ascii null = codes "null"
  print ascii (bool b) = if b then codes "true" else codes "false"
  print ascii (num n) = decimal n
  print ascii (neg n) = b'-' ∷ decimal (suc n)
  print ascii (str s) = quote ascii s
  print ascii (arr xs) = b'[' ∷ print_items ascii xs
  print ascii (obj fs) = b'{' ∷ print_fields ascii fs

  print_items : Bool → Items → List ℕ
  print_items ascii nil = b']' ∷ []
  print_items ascii (cons x nil) = print ascii x ++ b']' ∷ []
  print_items ascii (cons x (cons y xs)) = print ascii x ++ b',' ∷ print_items ascii (cons y xs)

  print_fields : Bool → Fields → List ℕ
  print_fields ascii end = b'}' ∷ []
  print_fields ascii (field k v end) = quote ascii k ++ b':' ∷ print ascii v ++ b'}' ∷ []
  print_fields ascii (field k v (field j w fs)) =
      quote ascii k ++ b':' ∷ print ascii v ++ b',' ∷ print_fields ascii (field j w fs)

-- The code points of the text that `json.dumps` returns.
unfoldable pub dumps : Bool → Json → List ℕ
unfolding sort_json print
dumps ascii j = print ascii (sort_json j)

-- Values from Python's.
unfoldable pub optional : Option String → Json
optional none = null
optional (some s) = str s

unfoldable pub strings : List String → Items
strings [] = nil
strings (s ∷ ss) = cons (str s) (strings ss)

unfoldable pub string_fields : Dict String → Fields
string_fields [] = end
string_fields ((k, v) ∷ d) = field k (str v) (string_fields d)

dumps_sample :
    dumps true (obj (field "b" (arr (cons (num 120) (cons null nil))) (field "a" (str "q\"é") end)))
    ≡ codes "{\"a\":\"q\\\"\\u00e9\",\"b\":[120,null]}"
unfolding dumps
dumps_sample = refl
