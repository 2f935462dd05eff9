-- ===== src/Dht/Bencode.antt =====
-- pkg/dht/bencode.go. A dictionary, a Go map, is its entries in any order; an error of `Decode` is
-- always `ErrBencode`, here `none`. A value here is one of the kinds that `Encode` takes, so its
-- error does not arise; an `int` is an `int64`.
pub mod Texts
pub mod Ordered
pub mod RoundTrip
mod Tests
use vapora.Base.{
  ℕ, zero, suc, ◌+◌, ◌*◌, ◌%◌, ◌^◌, Bool, true, false, not, ◌&&◌, Option, none, some, List, [], ◌∷◌,
  ◌++◌, ltb, leb, ◌==◌, if◌then◌else◌, length, take, drop, Bytes, bytes_eq, bytes_less,
}
use vapora.Base.Int.{ℤ}
use vapora.Base.Decimal.{decimal, read_decimal, signed, read_signed, is_digit}

mutual
  pub data Value : Type 0 where
    text : Bytes → Value
    number : ℤ → Value
    list_of : Items → Value
    dict_of : Dict → Value

  pub data Items : Type 0 where
    no_items : Items
    item : Value → Items → Items

  pub data Dict : Type 0 where
    no_entries : Dict
    entry : Bytes → Value → Dict → Dict

-- `sort.Strings` on the keys, each with what is appended for it.
unfoldable pub sort_in : Bytes → Bytes → List (Bytes × Bytes) → List (Bytes × Bytes)
sort_in key v [] = (key, v) ∷ []
sort_in key v ((k, w) ∷ es) =
    let later = sort_in key v es in
    if bytes_less key k then (key, v) ∷ (k, w) ∷ es else (k, w) ∷ later

unfoldable pub sorted : List (Bytes × Bytes) → List (Bytes × Bytes)
sorted [] = []
sorted ((k, v) ∷ es) = sort_in k v (sorted es)

unfoldable pub joined : List (Bytes × Bytes) → Bytes
joined [] = []
joined ((k, v) ∷ es) = v ++ joined es

-- `appendString` and `appendInt`, as what they append.
unfoldable pub encode_text : Bytes → Bytes
encode_text value = decimal (length value) ++ b':' ∷ value

unfoldable pub encode_int : ℤ → Bytes
encode_int value = b'i' ∷ signed value ++ b'e' ∷ []

-- `appendValue` and `appendDict`. Entries are put in order once they are encoded, which gives the
-- same bytes.
unfoldable mutual
  pub encode : Value → Bytes
  encode (text t) = encode_text t
  encode (number n) = encode_int n
  encode (list_of items) = b'l' ∷ encode_items items ++ b'e' ∷ []
  encode (dict_of d) = b'd' ∷ joined (sorted (encode_entries d)) ++ b'e' ∷ []

  pub encode_items : Items → Bytes
  encode_items no_items = []
  encode_items (item v vs) = encode v ++ encode_items vs

  pub encode_entries : Dict → List (Bytes × Bytes)
  encode_entries no_entries = []
  encode_entries (entry k v d) = (k, encode_text k ++ encode v) ∷ encode_entries d

-- A string's length, up to the colon: only digits, and eleven at most.
unfoldable pub split_length : ℕ → Bytes → Option (Bytes × Bytes)
split_length i [] = none
split_length i (c ∷ cs) =
    let more : Option (Bytes × Bytes) = elim (split_length (i + 1) cs) [
      | none ↦ none
      | some (ds, rest) ↦ some (c ∷ ds, rest)
    ] in
    if c == b':'
    then some ([], cs)
    else if not (is_digit c)
    then none
    else if ltb 10 i
    then none
    else more

-- As many bytes as were declared, if they are there.
unfoldable pub take_text : Option ℕ → Bytes → Option (Bytes × Bytes)
take_text none rest = none
take_text (some size) rest =
    if ltb (length rest) size then none else some (take size rest, drop size rest)

-- `decodeString`.
unfoldable pub decode_text : Bytes → Option (Bytes × Bytes)
decode_text wire = elim (split_length 0 wire) [
  | none ↦ none
  | some (ds, rest) ↦ take_text (read_decimal ds) rest
]

-- What stands before the first `e`, and after it.
unfoldable pub until_e : Bytes → Option (Bytes × Bytes)
until_e [] = none
until_e (c ∷ cs) =
    let more : Option (Bytes × Bytes) = elim (until_e cs) [
      | none ↦ none
      | some (ds, rest) ↦ some (c ∷ ds, rest)
    ] in
    if c == b'e' then some ([], cs) else more

-- `decodeInt`, behind the `i`.
unfoldable pub decode_int : Bytes → Option (ℤ × Bytes)
decode_int wire = elim (until_e wire) [
  | none ↦ none
  | some (ds, rest) ↦ elim (read_signed ds) [ none ↦ none | some n ↦ some (n, rest) ]
]

-- `dict[key] = value`.
unfoldable pub put_entry : Bytes → Value → Dict → Dict
put_entry key v no_entries = entry key v no_entries
put_entry key v (entry k w d) =
    let later = put_entry key v d in if bytes_eq k key then entry k v d else entry k w later

-- `decodeValue`, and `decodeList` and `decodeDict` behind their first byte, on fuel.
unfoldable mutual
  pub decode_value : ℕ → Bytes → Option (Value × Bytes)
  decode_value zero wire = none
  decode_value (suc f) [] = none
  decode_value (suc f) (c ∷ cs) = elim (c == b'i') [
    | true ↦ elim (decode_int cs) [ none ↦ none | some (n, rest) ↦ some (number n, rest) ]
    | false ↦ elim (c == b'l') [
      | true ↦ elim (decode_items f cs) [ none ↦ none | some (vs, rest) ↦ some (list_of vs, rest) ]
      | false ↦ elim (c == b'd') [
        | true ↦ elim (decode_entries f no_entries cs) [
          | none ↦ none
          | some (d, rest) ↦ some (dict_of d, rest)
        ]
        | false ↦ elim (decode_text (c ∷ cs)) [ none ↦ none | some (t, rest) ↦ some (text t, rest) ]
      ]
    ]
  ]

  pub decode_items : ℕ → Bytes → Option (Items × Bytes)
  decode_items zero wire = none
  decode_items (suc f) [] = none
  decode_items (suc f) (c ∷ cs) = elim (c == b'e') [
    | true ↦ some (no_items, cs)
    | false ↦ elim (decode_value f (c ∷ cs)) [
      | none ↦ none
      | some (v, rest) ↦ elim (decode_items f rest) [
        | none ↦ none
        | some (vs, rest') ↦ some (item v vs, rest')
      ]
    ]
  ]

  pub decode_entries : ℕ → Dict → Bytes → Option (Dict × Bytes)
  decode_entries zero dict wire = none
  decode_entries (suc f) dict [] = none
  decode_entries (suc f) dict (c ∷ cs) = elim (c == b'e') [
    | true ↦ some (dict, cs)
    | false ↦ elim (decode_text (c ∷ cs)) [
      | none ↦ none
      | some (key, rest) ↦ elim (decode_value f rest) [
        | none ↦ none
        | some (v, rest') ↦ decode_entries f (put_entry key v dict) rest'
      ]
    ]
  ]

-- `Decode`: one value and nothing after it.
unfoldable pub decode : Bytes → Option Value
decode wire = elim (decode_value (length wire + 1) wire) [
  | none ↦ none
  | some (v, []) ↦ some v
  | some (v, (c ∷ cs)) ↦ none
]

unfoldable pub get : Dict → Bytes → Option Value
get no_entries key = none
get (entry k v d) key = if bytes_eq k key then some v else get d key

-- The methods `String`, `Dict` and `List` of a dictionary.
unfoldable pub get_text : Dict → Bytes → Option Bytes
get_text d key = elim (get d key) [
  | none ↦ none
  | some (text t) ↦ some t
  | some (number n) ↦ none
  | some (list_of vs) ↦ none
  | some (dict_of e) ↦ none
]

unfoldable pub get_dict : Dict → Bytes → Option Dict
get_dict d key = elim (get d key) [
  | none ↦ none
  | some (text t) ↦ none
  | some (number n) ↦ none
  | some (list_of vs) ↦ none
  | some (dict_of e) ↦ some e
]

unfoldable pub get_list : Dict → Bytes → Option Items
get_list d key = elim (get d key) [
  | none ↦ none
  | some (text t) ↦ none
  | some (number n) ↦ none
  | some (list_of vs) ↦ some vs
  | some (dict_of e) ↦ none
]
