-- ===== src/Dht/Bencode/Ordered.antt =====
-- pkg/dht/bencode.go: dictionaries in key order, which sorting leaves and decoding rebuilds.
use vapora.Base.{
  ◌^◌, ◌<◌, ◌≡◌, refl, ap, true, false, ◌∷◌, ◌++◌, length, Bytes, bytes_eq, bytes_less,
  bytes_less-bytes_eq,
}
use vapora.Base.Decimal.{Fits64}
use vapora.Dht.Bencode.{
  Value, text, number, list_of, dict_of, Items, no_items, item, Dict, no_entries, entry, sort_in,
  sorted, encode_text, encode, encode_entries, put_entry,
}

-- Every key is larger.
abbrev pub Above : Bytes → Dict → Type 0
Above key no_entries = Unit
Above key (entry k v d) = (bytes_less key k ≡ true) × Above key d

-- Strings of fewer than 10^11 bytes, integers of 64 bits, and dictionaries in key order.
unfoldable mutual
  pub IsCanonical : Value → Type 0
  IsCanonical (text t) = length t < 10 ^ 11
  IsCanonical (number n) = Fits64 n
  IsCanonical (list_of vs) = AreCanonical vs
  IsCanonical (dict_of d) = IsOrdered d

  pub AreCanonical : Items → Type 0
  AreCanonical no_items = Unit
  AreCanonical (item v vs) = IsCanonical v × AreCanonical vs

  pub IsOrdered : Dict → Type 0
  IsOrdered no_entries = Unit
  IsOrdered (entry k v d) = (length k < 10 ^ 11) × IsCanonical v × Above k d × IsOrdered d

pub sort_in-Above :
    (key v : Bytes) (d : Dict)
    → Above key d
    → sort_in key v (encode_entries d) ≡ (key, v) ∷ encode_entries d
unfolding sort_in encode
sort_in-Above key v no_entries h = refl
sort_in-Above key v (entry k w d) (l, h) = rw l refl

pub sorted-encode_entries : (d : Dict) → IsOrdered d → sorted (encode_entries d) ≡ encode_entries d
unfolding sorted encode IsCanonical
sorted-encode_entries no_entries h = refl
sorted-encode_entries (entry k v d) (l, c, a, o) =
    rw (sorted-encode_entries d o) (sort_in-Above k (encode_text k ++ encode v) d a)

unfoldable pub append_dict : Dict → Dict → Dict
append_dict no_entries e = e
append_dict (entry k v d) e = entry k v (append_dict d e)

abbrev pub Absent : Bytes → Dict → Type 0
Absent key no_entries = Unit
Absent key (entry k v d) = (bytes_eq k key ≡ false) × Absent key d

abbrev pub Fresh : Dict → Dict → Type 0
Fresh acc no_entries = Unit
Fresh acc (entry k v d) = Absent k acc × Fresh acc d

pub put_entry-Absent :
    (key : Bytes) (v : Value) (acc : Dict)
    → Absent key acc
    → put_entry key v acc ≡ append_dict acc (entry key v no_entries)
unfolding put_entry append_dict
put_entry-Absent key v no_entries h = refl
put_entry-Absent key v (entry k w d) (ne, h) = rw ne (ap (entry k w) (put_entry-Absent key v d h))

pub append_dict_assoc :
    (acc : Dict) (k : Bytes) (v : Value) (d : Dict)
    → append_dict (append_dict acc (entry k v no_entries)) d ≡ append_dict acc (entry k v d)
unfolding append_dict
append_dict_assoc no_entries k v d = refl
append_dict_assoc (entry j w acc) k v d = ap (entry j w) (append_dict_assoc acc k v d)

pub Absent-append_dict :
    (key : Bytes) (acc : Dict) (k : Bytes) (v : Value)
    → Absent key acc
    → bytes_eq k key ≡ false
    → Absent key (append_dict acc (entry k v no_entries))
unfolding append_dict
Absent-append_dict key no_entries k v h ne = (ne, tt)
Absent-append_dict key (entry j w acc) k v (a, h) ne = (a, Absent-append_dict key acc k v h ne)

pub Fresh-append_dict :
    (acc : Dict) (k : Bytes) (v : Value) (d : Dict)
    → Fresh acc d
    → Above k d
    → Fresh (append_dict acc (entry k v no_entries)) d
Fresh-append_dict acc k v no_entries f a = tt
Fresh-append_dict acc k v (entry j w d) (f, fs) (l, a) =
    (Absent-append_dict j acc k v f (bytes_less-bytes_eq k j l), Fresh-append_dict acc k v d fs a)
