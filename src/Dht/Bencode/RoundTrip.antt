-- ===== src/Dht/Bencode/RoundTrip.antt =====
-- pkg/dht/bencode.go: a value comes back from its encoding.
use vapora.Base.{
  ℕ, zero, suc, ◌+◌, ◌≤◌, ◌≡◌, refl, ap, ◌∙◌, true, false, some, [], ◌∷◌, ◌++◌, append_assoc,
  append-nil, ◌==◌, length, length-append, arith, Bytes,
}
use vapora.Base.Int.{ℤ}
use vapora.Base.Decimal.{signed, is_digit}
use vapora.Dht.Bencode.{
  Value, text, number, list_of, dict_of, Items, no_items, item, Dict, no_entries, entry, sorted,
  joined, encode_text, encode_int, encode, encode_items, encode_entries, decode_text, decode_int,
  put_entry, decode_value, decode_items, decode_entries, decode,
}
use vapora.Dht.Bencode.Texts.{decode_text-encode_text, decode_int-signed, encode_text-starts}
use vapora.Dht.Bencode.Ordered.{
  IsCanonical, AreCanonical, IsOrdered, sorted-encode_entries, append_dict, Fresh, put_entry-Absent,
  append_dict_assoc, Fresh-append_dict,
}

-- The byte that a value starts with is not the one that closes a list.
encode-starts :
    (v : Value) (rest : Bytes)
    → (c : ℕ) × (cs : Bytes) × (encode v ++ rest ≡ c ∷ cs) × ((c == b'e') ≡ false)
unfolding encode encode_int
encode-starts (text t) rest =
    let (c, cs, e, d) = encode_text-starts t rest in (c, cs, e, ground arith)
encode-starts (number n) rest = (b'i', (signed n ++ b'e' ∷ []) ++ rest, refl, refl)
encode-starts (list_of vs) rest = (b'l', (encode_items vs ++ b'e' ∷ []) ++ rest, refl, refl)
encode-starts (dict_of d) rest =
    (b'd', (joined (sorted (encode_entries d)) ++ b'e' ∷ []) ++ rest, refl, refl)

length-starts : (bs cs : Bytes) (c : ℕ) → bs ++ [] ≡ c ∷ cs → 1 ≤ length bs
length-starts [] cs c e = absurd cc
length-starts (b ∷ bs) cs c e = omega arith

length-encode : (v : Value) → 1 ≤ length (encode v)
length-encode v = let (c, cs, e, ne) = encode-starts v [] in length-starts (encode v) cs c e

length-encode_text : (t : Bytes) → 1 ≤ length (encode_text t)
length-encode_text t =
    let (c, cs, e, d) = encode_text-starts t [] in length-starts (encode_text t) cs c e

decode_value-text :
    (f c : ℕ) (wire cs t rest : Bytes)
    → wire ≡ c ∷ cs
    → is_digit c ≡ true
    → decode_text wire ≡ some (t, rest)
    → decode_value (suc f) wire ≡ some (text t, rest)
decode_value-text f c wire cs t rest e d h =
    let h' : decode_text (c ∷ cs) ≡ some (t, rest) = rw⁻¹ e h in
    rw e (unfold decode_value in ground (arith, h'))

decode_items-item :
    (f c : ℕ) (wire cs : Bytes) (v : Value) (rest : Bytes) (vs : Items) (rest' : Bytes)
    → wire ≡ c ∷ cs
    → (c == b'e') ≡ false
    → decode_value f wire ≡ some (v, rest)
    → decode_items f rest ≡ some (vs, rest')
    → decode_items (suc f) wire ≡ some (item v vs, rest')
decode_items-item f c wire cs v rest vs rest' e ne h g =
    let h' : decode_value f (c ∷ cs) ≡ some (v, rest) = rw⁻¹ e h in
    rw e (unfold decode_items in ground (arith, ne, h', g))

decode_entries-entry :
    (f c : ℕ) (acc : Dict) (wire cs key rest : Bytes) (v : Value) (rest' : Bytes)
    → wire ≡ c ∷ cs
    → is_digit c ≡ true
    → decode_text wire ≡ some (key, rest)
    → decode_value f rest ≡ some (v, rest')
    → decode_entries (suc f) acc wire ≡ decode_entries f (put_entry key v acc) rest'
decode_entries-entry f c acc wire cs key rest v rest' e d h g =
    let h' : decode_text (c ∷ cs) ≡ some (key, rest) = rw⁻¹ e h in
    let ne : (c == b'e') ≡ false = ground arith in
    rw e (unfold decode_entries in ground (arith, ne, h', g))

-- A number, list or dictionary, whose first byte says so.
decode_value-number :
    (f : ℕ) (cs : Bytes) (n : ℤ) (rest : Bytes)
    → decode_int cs ≡ some (n, rest)
    → decode_value (suc f) (b'i' ∷ cs) ≡ some (number n, rest)
unfolding decode_value
decode_value-number f cs n rest h = ground (arith, h)

decode_value-list_of :
    (f : ℕ) (cs : Bytes) (vs : Items) (rest : Bytes)
    → decode_items f cs ≡ some (vs, rest)
    → decode_value (suc f) (b'l' ∷ cs) ≡ some (list_of vs, rest)
unfolding decode_value
decode_value-list_of f cs vs rest h = rw h refl

decode_value-dict_of :
    (f : ℕ) (cs : Bytes) (d : Dict) (rest : Bytes)
    → decode_entries f no_entries cs ≡ some (d, rest)
    → decode_value (suc f) (b'd' ∷ cs) ≡ some (dict_of d, rest)
unfolding decode_value
decode_value-dict_of f cs d rest h = rw h refl

decode_items-no_items :
    (f : ℕ) (rest : Bytes) → decode_items (suc f) (b'e' ∷ rest) ≡ some (no_items, rest)
unfolding decode_items
decode_items-no_items f rest = refl

decode_entries-no_entries :
    (f : ℕ) (acc : Dict) (rest : Bytes)
    → decode_entries (suc f) acc (b'e' ∷ rest) ≡ some (acc, rest)
unfolding decode_entries
decode_entries-no_entries f acc rest = refl

append_dict_none : (acc : Dict) → acc ≡ append_dict acc no_entries
unfolding append_dict
append_dict_none no_entries = refl
append_dict_none (entry k v d) = ap (entry k v) (append_dict_none d)

three : (a b c d : Bytes) → ((a ++ b) ++ c) ++ d ≡ a ++ (b ++ (c ++ d))
three a b c d = append_assoc (a ++ b) c d ∙ append_assoc a b (c ++ d)

closed : (bs rest : Bytes) → (bs ++ b'e' ∷ []) ++ rest ≡ bs ++ b'e' ∷ rest
closed bs rest = append_assoc bs (b'e' ∷ []) rest

length-closed : (c : ℕ) (bs : Bytes) → length (c ∷ bs ++ b'e' ∷ []) ≡ length bs + 2
length-closed c bs = omega (arith, length-append bs (b'e' ∷ []))

Fresh-no_entries : (d : Dict) → Fresh no_entries d
Fresh-no_entries no_entries = tt
Fresh-no_entries (entry k v d) = (tt, Fresh-no_entries d)

mutual
  unfolding encode encode_int IsCanonical joined append_dict

  decode_value-encode :
      (f : ℕ) (v : Value) (rest : Bytes)
      → IsCanonical v
      → length (encode v) ≤ f
      → decode_value f (encode v ++ rest) ≡ some (v, rest)
  decode_value-encode zero v rest h l = absurd (omega (arith, length-encode v))
  decode_value-encode (suc f) (text t) rest h l =
      let (c, cs, e, d) = encode_text-starts t rest in
      decode_value-text f c (encode_text t ++ rest) cs t rest e d (decode_text-encode_text t rest h)
  decode_value-encode (suc f) (number n) rest h l =
      decode_value-number f _ n rest (rw (closed (signed n) rest) (decode_int-signed n rest h))
  decode_value-encode (suc f) (list_of vs) rest h l = decode_value-list_of f _ vs rest (
      rw (closed (encode_items vs) rest) (
        decode_items-encode_items f vs rest h
          (omega (arith, length-closed b'l' (encode_items vs)))))
  decode_value-encode (suc f) (dict_of d) rest h l =
      let in_order = sorted-encode_entries d h in
      decode_value-dict_of f _ d rest (
        rw (in_order, closed (joined (encode_entries d)) rest)
          (decode_entries-joined f no_entries d rest h (Fresh-no_entries d) (
            rw⁻¹ in_order
              (omega (arith, length-closed b'd' (joined (sorted (encode_entries d))))))))

  decode_items-encode_items :
      (f : ℕ) (vs : Items) (rest : Bytes)
      → AreCanonical vs
      → length (encode_items vs) + 1 ≤ f
      → decode_items f (encode_items vs ++ b'e' ∷ rest) ≡ some (vs, rest)
  decode_items-encode_items zero vs rest h l = absurd (omega arith)
  decode_items-encode_items (suc f) no_items rest h l = decode_items-no_items f rest
  decode_items-encode_items (suc f) (item v vs) rest (h, hs) l =
      let more = encode_items vs ++ b'e' ∷ rest in
      let (c, cs, e, ne) = encode-starts v more in
      let long = length-append (encode v) (encode_items vs) in
      rw (append_assoc (encode v) (encode_items vs) (b'e' ∷ rest)) (
        decode_items-item f c (encode v ++ more) cs v more vs rest e ne
          (decode_value-encode f v more h (omega (arith, long)))
          (decode_items-encode_items f vs rest hs (omega (arith, long, length-encode v))))

  decode_entries-joined :
      (f : ℕ) (acc d : Dict) (rest : Bytes)
      → IsOrdered d
      → Fresh acc d
      → length (joined (encode_entries d)) + 1 ≤ f
      → decode_entries f acc (joined (encode_entries d) ++ b'e' ∷ rest)
        ≡ some (append_dict acc d, rest)
  decode_entries-joined zero acc d rest h fr l = absurd (omega arith)
  decode_entries-joined (suc f) acc no_entries rest h fr l =
      decode_entries-no_entries f acc rest ∙ ap (λ a. some (a, rest)) (append_dict_none acc)
  decode_entries-joined (suc f) acc (entry k v d) rest (lk, h, above, o) (new, fr) l =
      let more = joined (encode_entries d) ++ b'e' ∷ rest in
      let (c, cs, e, digit) = encode_text-starts k (encode v ++ more) in
      let long = length-append (encode_text k ++ encode v) (joined (encode_entries d)) in
      let key_long = length-append (encode_text k) (encode v) in
      let acc' = append_dict acc (entry k v no_entries) in
      rw (three (encode_text k) (encode v) (joined (encode_entries d)) (b'e' ∷ rest)) (
        decode_entries-entry f c acc (encode_text k ++ (encode v ++ more)) cs k (encode v ++ more) v
          more e digit (decode_text-encode_text k (encode v ++ more) lk)
          (decode_value-encode f v more h (omega (arith, long, key_long)))
        ∙ ap (λ a. decode_entries f a more) (put_entry-Absent k v acc new)
        ∙ decode_entries-joined f acc' d rest o (Fresh-append_dict acc k v d fr above)
            (omega (arith, long, key_long, length-encode_text k))
        ∙ ap (λ a. some (a, rest)) (append_dict_assoc acc k v d))

-- Whatever is encoded decodes to itself, nested as it may be, and the decoder's fuel is enough.
-- Strings must be shorter than 10^11 bytes, integers fit 64 bits and the entries of a dictionary
-- be listed in the order of their keys, no key twice.
pub decode-encode : (v : Value) → IsCanonical v → decode (encode v) ≡ some v
unfolding decode
decode-encode v h =
    let whole = decode_value-encode (length (encode v) + 1) v [] h (omega arith) in
    ground (arith, whole, append-nil (encode v))
