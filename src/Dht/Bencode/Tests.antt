-- ===== src/Dht/Bencode/Tests.antt =====
-- Concrete values of pkg/dht/bencode.go.
use vapora.Base.{◌≡◌, refl, none, some, [], ◌∷◌, arith, bytes_less, bytes_eq}
use vapora.Base.Int.{negsuc}
use vapora.Base.Decimal.{decimal, digits, read_decimal, read_digits, signed}
use vapora.Dht.Bencode.{
  Value, text, number, list_of, dict_of, no_items, item, Dict, no_entries, entry, encode, decode,
  decode_text, take_text, split_length, encode_text, encode_int, sorted, sort_in, joined, get_text,
  get, get_list, get_dict,
}
use vapora.Dht.Bencode.Ordered.{IsCanonical}
use vapora.Dht.Bencode.RoundTrip.{decode-encode}

abbrev reply : Value
reply = dict_of (
    entry (b'a' ∷ []) (list_of (item (number (negsuc 11)) (item (text []) no_items)))
      (entry (b'q' ∷ []) (text (b'h' ∷ b'i' ∷ [])) no_entries))

reply-IsCanonical : IsCanonical reply
unfolding IsCanonical bytes_less
reply-IsCanonical =
    (omega arith, (omega arith, (omega arith, tt)), (refl, tt), (omega arith, omega arith, tt, tt))

decode-encode_example : decode (encode reply) ≡ some reply
decode-encode_example = decode-encode reply reply-IsCanonical

-- The bytes on the wire, with the keys put in order.
encode_run :
    encode (
      dict_of
        (entry (b'b' ∷ []) (number (negsuc 6)) (entry (b'a' ∷ []) (text (b'x' ∷ [])) no_entries)))
    ≡ b'd' ∷ b'1' ∷ b':' ∷ b'a' ∷ b'1' ∷ b':' ∷ b'x' ∷ b'1' ∷ b':' ∷ b'b' ∷ b'i' ∷ b'-' ∷ b'7'
      ∷ b'e' ∷ b'e' ∷ []
unfolding encode encode_text encode_int sorted sort_in joined decimal digits signed bytes_less
encode_run = refl

-- A length with nothing behind it, and one longer than what is left.
short_run : decode_text (b'5' ∷ b':' ∷ b'a' ∷ []) ≡ none
unfolding decode_text take_text split_length read_decimal read_digits
short_run = refl

abbrev small : Dict
small = entry (b'q' ∷ []) (text (b'h' ∷ b'i' ∷ [])) no_entries

get_text_run : get_text small (b'q' ∷ []) ≡ some (b'h' ∷ b'i' ∷ [])
unfolding get_text get bytes_eq
get_text_run = refl

get_list_run : get_list small (b'q' ∷ []) ≡ none
unfolding get_list get bytes_eq
get_list_run = refl

get_dict_run : get_dict small (b'q' ∷ []) ≡ none
unfolding get_dict get bytes_eq
get_dict_run = refl
